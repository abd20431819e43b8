-- ===== src/Mcp/Calls.antt =====
-- What a call of a tool is answered with, whether it succeeds or raises.
use mathlib.Core.Path.{subst}
use llm_wiki_chrome.Prelude.{
  String, ◌≡◌, refl, sym, ap, ◌⊎◌, inl, inr, Bool, true, false, some, [], ◌∷◌, Bool-cases,
}
use llm_wiki_chrome.Result.{Error, value_error, Result, ok, err, ◌>>=◌, bind-ok, ok-injective}
use llm_wiki_chrome.Json.{Value, Fields, bool, str, obj, end, array, get, is_null, is_text}
use llm_wiki_chrome.Protocol.Program.{get_or}
use llm_wiki_chrome.Collaboration.Tool.{World}
use llm_wiki_chrome.Collaboration.Compile.{entry_of}
use llm_wiki_chrome.Mcp.Tools.{Controller, call_tool}
use llm_wiki_chrome.Mcp.Server.{
  collaboration_error_message, rpc_result, text_content, is_image, image_result, rendered,
  rendered_result, tool_result, call, by_method, dispatch_method, dispatch, failure,
}

abbrev pub is_object : Value → Bool
is_object (obj fs) = true
is_object _ = false

module _ (world : World) (dumps ascii_dumps : Value → String) (tools : Value) (new_id name : String)
    (arguments : Value) (c : Controller) where
  -- The tool returns and its value is rendered as this result, which does not say that it is an error.
  pub record Succeeds (w : Fields) : Type 0 where
    pub given : Fields
    pub is_given : arguments ≡ obj given
    pub value : Value
    pub returned : (call_tool world new_id name given c).result ≡ ok value
    pub shown : rendered world dumps ascii_dumps tools name value ≡ ok (obj w)
    pub no_error : get "isError" w ≡ bool false

  -- Where the exception comes from: arguments that are no object, the tool, or the rendering of its value.
  abbrev pub Origin : Error → Type 0
  Origin e =
      ((is_object arguments ≡ false) × (e ≡ value_error))
      ⊎ ((given : Fields) × (arguments ≡ obj given)
          × (((call_tool world new_id name given c).result ≡ err e)
              ⊎ ((value : Value) × ((call_tool world new_id name given c).result ≡ ok value)
                  × (rendered world dumps ascii_dumps tools name value ≡ err e))))

  -- The exception is told as a result that says that it is an error, with one text.
  pub record Fails (w : Fields) : Type 0 where
    pub raised : Error
    pub origin : Origin raised
    pub an_error : get "isError" w ≡ bool true
    pub told : get "content" w ≡ array (text_content (collaboration_error_message raised) ∷ [])

  rendered-object :
      (value out : Value)
      → rendered world dumps ascii_dumps tools name value ≡ ok out
      → (w : Fields) × (out ≡ obj w) × (get "isError" w ≡ bool false)
  unfolding rendered image_result get
  rendered-object value out h = elim (Bool-cases (is_image name)) [
    | inl e ↦ image (rw (rendered, e) at h)
    | inr e ↦ (_, sym (ok-injective (rw (rendered, e) at h)), refl)
  ]
    where
      image :
          image_result world dumps ascii_dumps tools value ≡ ok out
          → (w : Fields) × (out ≡ obj w) × (get "isError" w ≡ bool false)
      image q =
          let (id, q1, r1) = bind-ok (entry_of "collaboration_id" value) _ q in
          let (url, q2, r2) = bind-ok (entry_of "url" value) _ r1 in
          let (encoded, q3, r3) = bind-ok (entry_of "data_base64" value) _ r2 in
          let (mime, q4, r4) = bind-ok (entry_of "mime_type" value) _ r3 in
          (_, sym (ok-injective r4), refl)

  fails : (e : Error) → Origin e → (w : Fields) × (failure e ≡ obj w) × (Succeeds w ⊎ Fails w)
  unfolding get
  fails e origin =
      (_, refl, inr (record { raised = e; origin = origin; an_error = refl; told = refl }))

  shown :
      (a : Fields) (value : Value)
      → arguments ≡ obj a
      → (call_tool world new_id name a c).result ≡ ok value
      → (m : Result Value) → rendered world dumps ascii_dumps tools name value ≡ m
      → (w : Fields) × (rendered_result m ≡ obj w) × (Succeeds w ⊎ Fails w)
  shown a value e q (ok out) h =
      let (w, same, no_error) = rendered-object value out h in
      (
        w,
        same,
        inl (record {
          given = a;
          is_given = e;
          value = value;
          returned = q;
          shown = subst (λ x. rendered world dumps ascii_dumps tools name value ≡ ok x) same h;
          no_error = no_error;
        }),
      )
  shown a value e q (err raised) h = fails raised (inr (a, e, inr (value, q, h)))

  called :
      (a : Fields)
      → arguments ≡ obj a
      → (m : Result Value) → (call_tool world new_id name a c).result ≡ m
      → (w : Fields) × (rendered_result (m >>= rendered world dumps ascii_dumps tools name) ≡ obj w)
        × (Succeeds w ⊎ Fails w)
  called a e (ok value) h = shown a value e h _ refl
  called a e (err raised) h = fails raised (inr (a, e, inl h))

  tool_result-shown :
      (v : Value)
      → arguments ≡ v
      → (w : Fields) × (rendered_result
            (tool_result world dumps ascii_dumps tools new_id name v c).result
          ≡ obj w)
        × (Succeeds w ⊎ Fails w)
  unfolding tool_result
  tool_result-shown (obj a) e = called a e _ refl
  tool_result-shown _ e = fails value_error (inl (ap is_object e, refl))

module _ (world : World) (dumps ascii_dumps : Value → String) (tools : Value)
    (new_id name : String) where
  -- A request to call a tool, whatever the tool and the arguments are, is answered with a result that has its
  -- id and never with an error of the protocol. The result says that it is no error exactly where the
  -- arguments are an object, the tool returns and its value is rendered. Otherwise it says that it is an
  -- error, and its only content is the text that `collaboration_error_message` has for the exception that the
  -- arguments, the tool or the rendering has raised.
  pub dispatch-tool_call :
      (fs parameters : Fields) (c : Controller)
      → is_text "2.0" (get "jsonrpc" fs) ≡ true
      → get "method" fs ≡ str "tools/call"
      → is_null (get "id" fs) ≡ false
      → get "params" fs ≡ obj parameters
      → get "name" parameters ≡ str name
      → let arguments = get_or "arguments" (obj end) parameters in
        (w : Fields) × ((dispatch world dumps ascii_dumps tools new_id (obj fs) c).response
          ≡ some (rpc_result (get "id" fs) (obj w)))
        × (Succeeds world dumps ascii_dumps tools new_id name arguments c w
            ⊎ Fails world dumps ascii_dumps tools new_id name arguments c w)
  unfolding dispatch dispatch_method by_method call
  dispatch-tool_call fs parameters c version method with_id given named =
      let (w, same, outcome) =
        tool_result-shown world dumps ascii_dumps tools new_id name
          (get_or "arguments" (obj end) parameters) c _ refl in
      (w, rw (version, method, with_id, given, named, same) refl, outcome)
