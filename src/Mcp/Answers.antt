-- ===== src/Mcp/Answers.antt =====
-- What the server answers to a request, and what a request does.
use llm_wiki_chrome.Prelude.{
  ◌≤◌, String, ◌≡◌, ◌⊎◌, refl, inl, inr, Bool, true, false, ◌==◌, Option, none, some, List, [], ◌∷◌,
  arith, All, length, Bool-cases, if◌then◌else◌,
}
use llm_wiki_chrome.Result.{Result, ok, err}
use llm_wiki_chrome.Json.{ℤ, Value, Fields, str, obj, get, is_null, is_text, end}
use llm_wiki_chrome.Protocol.Program.{get_or}
use llm_wiki_chrome.Collaboration.Tool.{Job, World}
use llm_wiki_chrome.Collaboration.Bound.{IsBound}
use llm_wiki_chrome.Mcp.Tools.{Controller, call_tool}
use llm_wiki_chrome.Mcp.Serves.{IsKept, call_tool-IsServed}
use llm_wiki_chrome.Mcp.Server.{
  Served, silent, answered, tool_result, call, call_params, by_method, dispatch_method, dispatch,
  serve_line, initialized, rpc_result, rpc_error,
}

-- A job that is bound to some shared tab.
abbrev pub IsBoundToOne : World → Job → Type 0
IsBoundToOne world job = (id : Value) × IsBound world id job

-- A request gives at most one job, bound to one shared tab, and keeps the bounds.
pub record IsHandled (world : World) (s : Served) : Type 0 where
  pub bound : All (IsBoundToOne world) s.jobs
  pub few : length s.jobs ≤ 1
  pub kept : IsKept s.controller

pub All-map {κ κ'} :
    {A : Type 0} {P : A → Type κ} {Q : A → Type κ'} (f : (a : A) → P a → Q a) (xs : List A)
    → All P xs
    → All Q xs
All-map f [] h = tt
All-map f (x ∷ xs) h = (f x h.0, All-map f xs h.1)

module _ (world : World) (dumps ascii_dumps : Value → String) (tools : Value)
    (new_id : String) where
  answered-IsHandled : (c : Controller) (v : Value) → IsKept c → IsHandled world (answered c v)
  answered-IsHandled c v k = record { bound = tt; few = omega arith; kept = k }

  tool_result-IsHandled :
      (name : String) (arguments : Value) (c : Controller) (response : Option Value)
      → IsKept c
      → IsHandled world (
          let r = tool_result world dumps ascii_dumps tools new_id name arguments c in
          record { jobs = r.jobs; controller = r.controller; response = response })
  unfolding tool_result
  tool_result-IsHandled name (obj a) c response k =
      let served = call_tool-IsServed world new_id name a c k in
      record {
        bound =
            All-map (λ job b. (get "collaboration_id" a, b)) (call_tool world new_id name a c).jobs
              served.bound;
        few = served.few;
        kept = served.kept;
      }
  tool_result-IsHandled name _ c response k = record { bound = tt; few = omega arith; kept = k }

  call-IsHandled :
      (request_id parameters : Value) (c : Controller)
      → IsKept c
      → IsHandled world (call world dumps ascii_dumps tools new_id request_id parameters c)
  unfolding call
  call-IsHandled request_id (obj parameters) c k = named (get "name" parameters)
    where
      named :
          (name : Value)
          → IsHandled world
              (call_params world dumps ascii_dumps tools new_id request_id parameters name c)
      named (str name) = tool_result-IsHandled name (get_or "arguments" (obj end) parameters) c _ k
      named _ = answered-IsHandled c _ k
  call-IsHandled request_id _ c k = answered-IsHandled c _ k

  by_method-IsHandled :
      (method : String) (request_id : Value) (fs : Fields) (c : Controller)
      → IsKept c
      → IsHandled world (by_method world dumps ascii_dumps tools new_id method request_id fs c)
  unfolding by_method
  by_method-IsHandled method request_id fs c k =
      chosen (method == "initialize") (answered-IsHandled c _ k) (
        chosen (method == "ping") (answered-IsHandled c _ k) (
          chosen (method == "tools/list") (answered-IsHandled c _ k) (
            chosen (method == "tools/call") (call-IsHandled request_id (get "params" fs) c k) (
              chosen (method == "resources/list") (answered-IsHandled c _ k) (
                chosen (method == "prompts/list") (answered-IsHandled c _ k)
                  (answered-IsHandled c _ k))))))
    where
      chosen :
          {s t : Served} (b : Bool)
          → IsHandled world s
          → IsHandled world t
          → IsHandled world (if b then s else t)
      chosen true h other = h
      chosen false h other = other

  dispatch_method-IsHandled :
      (method : Value) (fs : Fields) (c : Controller)
      → IsKept c
      → IsHandled world (dispatch_method world dumps ascii_dumps tools new_id method fs c)
  unfolding dispatch_method
  dispatch_method-IsHandled (str method) fs c k = elim (Bool-cases (is_null (get "id" fs))) [
    | inl e ↦ rw e (record { bound = tt; few = omega arith; kept = k })
    | inr e ↦ rw e (by_method-IsHandled method (get "id" fs) fs c k)
  ]
  dispatch_method-IsHandled _ fs c k = answered-IsHandled c _ k

  -- Whatever value comes in as a request, the server gives the client at most one job for it, bound to a tab
  -- that is shared, and keeps the bounds of the recording and of the schedules.
  dispatch-IsHandled :
      (request : Value) (c : Controller)
      → IsKept c
      → IsHandled world (dispatch world dumps ascii_dumps tools new_id request c)
  unfolding dispatch
  dispatch-IsHandled (obj fs) c k = elim (Bool-cases (is_text "2.0" (get "jsonrpc" fs))) [
    | inl e ↦ rw e (dispatch_method-IsHandled (get "method" fs) fs c k)
    | inr e ↦ rw e (answered-IsHandled c _ k)
  ]
  dispatch-IsHandled _ c k = answered-IsHandled c _ k

  pub serve_line-IsHandled :
      (request : Option Value) (c : Controller)
      → IsKept c
      → IsHandled world (serve_line world dumps ascii_dumps tools new_id request c)
  unfolding serve_line
  serve_line-IsHandled (some request) c k = dispatch-IsHandled request c k
  serve_line-IsHandled none c k = answered-IsHandled c _ k

-- The response has a result or an error, and the id of its request.
abbrev pub IsReply : (request_id : Value) → Option Value → Type 0
IsReply request_id response =
    ((result : Value) × (response ≡ some (rpc_result request_id result)))
    ⊎ ((code : ℤ) × (message : String) × (response ≡ some (rpc_error request_id code message)))

abbrev pub Answers : (request_id : Value) → Controller → Served → Type 0
Answers request_id c s =
    ((is_null request_id ≡ true) × (s ≡ silent c))
    ⊎ ((is_null request_id ≡ false) × IsReply request_id s.response)

module _ (world : World) (dumps ascii_dumps : Value → String) (tools : Value)
    (new_id : String) where
  initialized-IsReply :
      (id requested : Value) (m : Result Bool) → IsReply id (some (initialized id requested m))
  initialized-IsReply id requested (ok supported) = inl (_, refl)
  initialized-IsReply id requested (err e) = inr (_, _, refl)

  call-IsReply :
      (id parameters : Value) (c : Controller)
      → IsReply id (call world dumps ascii_dumps tools new_id id parameters c).response
  unfolding call
  call-IsReply id (obj parameters) c = named (get "name" parameters)
    where
      named :
          (name : Value)
          → IsReply id
              (call_params world dumps ascii_dumps tools new_id id parameters name c).response
      named (str name) = inl (_, refl)
      named _ = inr (_, _, refl)
  call-IsReply id _ c = inr (_, _, refl)

  by_method-IsReply :
      (method : String) (id : Value) (fs : Fields) (c : Controller)
      → IsReply id (by_method world dumps ascii_dumps tools new_id method id fs c).response
  unfolding by_method
  by_method-IsReply method id fs c =
      chosen _ _ (method == "initialize") (initialized-IsReply id _ _) (
        chosen _ _ (method == "ping") (inl (_, refl)) (
          chosen _ _ (method == "tools/list") (inl (_, refl)) (
            chosen _ _ (method == "tools/call") (call-IsReply id (get "params" fs) c) (
              chosen _ _ (method == "resources/list") (inl (_, refl))
                (chosen _ _ (method == "prompts/list") (inl (_, refl)) (inr (_, _, refl)))))))
    where
      chosen :
          (s t : Served) (b : Bool)
          → IsReply id s.response
          → IsReply id t.response
          → IsReply id (if b then s else t).response
      chosen s t true h k = h
      chosen s t false h k = k

  -- A JSON-RPC 2.0 request whose method is a text and that has an id is answered once, with a result or an
  -- error that has this id; without an id, as a notification, it is not answered and does nothing.
  pub dispatch-Answers :
      (fs : Fields) (method : String) (c : Controller)
      → is_text "2.0" (get "jsonrpc" fs) ≡ true
      → get "method" fs ≡ str method
      → Answers (get "id" fs) c (dispatch world dumps ascii_dumps tools new_id (obj fs) c)
  unfolding dispatch dispatch_method
  dispatch-Answers fs method c version named = elim (Bool-cases (is_null (get "id" fs))) [
    | inl e ↦ inl (e, rw (version, named, e) refl)
    | inr e ↦ inr (e, rw (version, named, e) (by_method-IsReply method (get "id" fs) fs c))
  ]
