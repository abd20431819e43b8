-- ===== src/Collaboration/Acting.antt =====
-- collaboration.py: the tools that change the page: `click`, `drag`, `select`, `type_text`,
-- `key_chord`, `dialog`, `upload`, `download` and `credential_fill`. The `KEY_NAMES` of this module are
-- those of protocol.py.
use llm_wiki_chrome.Prelude.{
  String, len, ltb, ◌==◌, is_some, map, Bool, true, not, ◌||◌, Option, none, some, List, [], ◌∷◌,
  within, all, unique, length, if◌then◌else◌, is_empty, contains,
}
use llm_wiki_chrome.Result.{Result, ok, err, collaboration_error, type_error, raise_if}
use llm_wiki_chrome.Json.{
  end, Value, null, bool, int, pos, str, obj, arr, dict, array, text_array, get, to_list,
  is_hashable, str_and, texts, is_text,
}
use llm_wiki_chrome.Protocol.Names.{key_names}
use llm_wiki_chrome.Protocol.Program.{get_or}
use llm_wiki_chrome.Policy.Roots.{FilePath, validate_uploads, validate_download}
use llm_wiki_chrome.Collaboration.Locator.{bounded_text}
use llm_wiki_chrome.Collaboration.Tool.{World, Tool, lift, pure, ◌>>=◌, ◌>>◌}
use llm_wiki_chrome.Collaboration.Compile.{
  plan, mutation_receipt, bounded_int, boolean, one_of, item_of, entry_of, at_least_1000,
  policy_as_collaboration,
}
use llm_wiki_chrome.Collaboration.Calls.{record_step, act, attached, grant_of, run_plan, located}

module _ (world : World) where
  unfoldable pub click : (id locator : Value) → Tool Value
  click id locator = do
    g ← grant_of world id
    found ← located world locator
    outcome ←
        run_plan world g
          (record (plan "click"
            (attached (
              act "assert_ax" (("locator", found) ∷ [])
              ∷ act "before_mutation" []
              ∷ act "click_ax" (("locator", found) ∷ [])
              ∷ []))
            (dict (("locator", found) ∷ []))) { capability = "mutation" })
          null true
    record_step "click" (dict (("locator", found) ∷ []))
    pure (obj (dict (mutation_receipt id outcome)))

  unfoldable pub drag : (id locator destination steps : Value) → Tool Value
  drag id locator destination steps = do
    g ← grant_of world id
    source ← located world locator
    target ← located world destination
    count ← lift (bounded_int 2 50 "steps must be between 2 and 50" steps)
    let arguments : List (String × Value) =
        ("locator", source) ∷ ("destination", target) ∷ ("steps", int (pos count)) ∷ []
    outcome ←
        run_plan world g
          (record (plan "drag" (attached (act "before_mutation" [] ∷ act "drag_ax" arguments ∷ []))
            (dict arguments)) { capability = "mutation" })
          null true
    record_step "drag" (dict arguments)
    pure (obj (dict (mutation_receipt id outcome)))

  -- `select`
  unfoldable pub select_option : (id locator option_locator : Value) → Tool Value
  select_option id locator option_locator = do
    g ← grant_of world id
    target ← located world locator
    option ← located world option_locator
    let arguments : List (String × Value) = ("locator", target) ∷ ("option_locator", option) ∷ []
    outcome ←
        run_plan world g
          (record (plan "select"
            (attached (act "before_mutation" [] ∷ act "select_ax_option" arguments ∷ []))
            (dict arguments)) { capability = "mutation" })
          null true
    record_step "select" (dict arguments)
    pure (obj (dict (mutation_receipt id outcome)))

  unfoldable pub type_text : (id locator text replace_all : Value) → Tool Value
  type_text id locator text replace_all = do
    g ← grant_of world id
    found ← located world locator
    private_text ← lift (bounded_text 16384 text)
    all_of_it ← lift (boolean "replace_all must be boolean" replace_all)
    let digest : String = world.runtime.sha256 private_text
    outcome ←
        run_plan world g
          (record (plan "type"
            (attached (
              act "assert_ax" (("locator", found) ∷ [])
              ∷ act "focus_ax" (("locator", found) ∷ [])
              ∷ act "before_mutation" []
              ∷ act "insert_private_text"
                  (("slot", str "input.text") ∷ ("replace_all", bool all_of_it) ∷ [])
              ∷ act "assert_ax_private_value" (("slot", str "input.text") ∷ [])
              ∷ []))
            (dict (
              ("locator", found)
              ∷ ("text_sha256", str digest)
              ∷ ("replace_all", bool all_of_it)
              ∷ []))) { capability = "mutation"; private_slots = "input.text" ∷ [] })
          (obj (dict (("input.text", str private_text) ∷ []))) true
    record_step "type" (
        dict (
          ("locator", found)
          ∷ ("replace_all", bool all_of_it)
          ∷ ("private_value_sha256", str digest)
          ∷ []))
    pure (obj (dict (mutation_receipt id outcome)))

  -- `set(keys)` raises on a list or an object.
  unfoldable pub chord_of : Value → Result Value
  chord_of (arr vs) =
      if not (within 1 5 (length (to_list vs)))
      then err (collaboration_error "keys must be one bounded supported key chord")
      else if not (all is_hashable (to_list vs))
      then err type_error
      else if not (all (str_and (contains key_names)) (to_list vs))
          || not (unique (texts (to_list vs)))
      then err (collaboration_error "keys must be one bounded supported key chord")
      else ok (arr vs)
  chord_of _ = err (collaboration_error "keys must be one bounded supported key chord")

  unfoldable pub key_chord : (id keys : Value) → Tool Value
  key_chord id keys = do
    g ← grant_of world id
    chord ← lift (chord_of keys)
    outcome ←
        run_plan world g
          (record (plan "key"
            (attached
              (act "before_mutation" [] ∷ act "dispatch_key_chord" (("keys", chord) ∷ []) ∷ []))
            (dict (("keys", chord) ∷ []))) { capability = "mutation" })
          null true
    record_step "key" (dict (("keys", chord) ∷ []))
    pure (obj (dict (mutation_receipt id outcome)))

  -- The text of the prompt, none where it is None.
  unfoldable pub prompt_of : (accept : Bool) → Value → Result (Option String)
  prompt_of accept null = ok none
  prompt_of true (str s) =
      if s == ""
      then err (collaboration_error "must be a non-empty string")
      else if ltb 16384 (len s)
      then err (collaboration_error "is too large")
      else ok (some s)
  prompt_of accept _ = err (collaboration_error "prompt_text is valid only for an accepted prompt")

  unfoldable pub prompt_slots : Option String → List String
  prompt_slots none = []
  prompt_slots (some s) = "dialog.prompt" ∷ []

  unfoldable pub prompt_values : Option String → Value
  prompt_values none = null
  prompt_values (some s) = obj (dict (("dialog.prompt", str s) ∷ []))

  unfoldable pub prompt_slot : Option String → Value
  prompt_slot none = null
  prompt_slot (some s) = str "dialog.prompt"

  unfoldable pub dialog : (id accept prompt_text : Value) → Tool Value
  dialog id accept prompt_text = do
    g ← grant_of world id
    accepted ← lift (boolean "accept must be boolean" accept)
    prompt ← lift (prompt_of accepted prompt_text)
    let arguments : List (String × Value) =
        ("accept", bool accepted) ∷ ("has_prompt", bool (is_some prompt)) ∷ []
    outcome ←
        run_plan world g
          (record (plan "dialog"
            (attached (
              act "before_mutation" []
              ∷ act "handle_dialog"
                  (("accept", bool accepted) ∷ ("prompt_slot", prompt_slot prompt) ∷ [])
              ∷ []))
            (dict arguments)) { capability = "mutation"; private_slots = prompt_slots prompt })
          (prompt_values prompt) true
    record_step "dialog" (dict arguments)
    pure (obj (dict (mutation_receipt id outcome)))

  unfoldable pub hash_files : List FilePath → Tool (List String)
  hash_files [] = pure []
  hash_files (path ∷ paths) = do
    hash ← lift (world.file_sha256 path)
    hashes ← hash_files paths
    pure (hash ∷ hashes)

  unfoldable pub upload : (id locator paths : Value) → Tool Value
  upload id locator paths = do
    g ← grant_of world id
    found ← located world locator
    uploads ← lift (policy_as_collaboration (validate_uploads world.files world.policy paths))
    hashes ← hash_files uploads
    let arguments : List (String × Value) =
        ("locator", found) ∷ ("file_sha256", text_array hashes) ∷ []
    outcome ←
        run_plan world g
          (record (plan "upload"
            (attached (
              act "before_mutation" []
              ∷ act "set_private_files" (
                  ("locator", found)
                  ∷ ("slot", str "upload.files")
                  ∷ ("max_files", int (pos (length uploads)))
                  ∷ [])
              ∷ []))
            (dict arguments)) { capability = "mutation"; private_slots = "upload.files" ∷ [] })
          (obj (
            dict (
              ("upload.files", str (world.json_text (text_array (map world.path_text uploads))))
              ∷ [])))
          true
    record_step "upload" (dict arguments)
    pure (obj (dict (mutation_receipt id outcome)))

  -- One item of the downloads.
  unfoldable pub verified : Value → Tool Value
  verified (obj item) = do
    lift (
        raise_if (not (is_text "complete" (get "state" item)))
          (collaboration_error "a downloaded file was incomplete or marked unsafe"))
    danger ← lift (
        one_of ("safe" ∷ "accepted" ∷ []) "a downloaded file was incomplete or marked unsafe"
          (get "danger" item))
    path ←
        lift (
          policy_as_collaboration
            (validate_download world.files world.policy (get "filename" item)))
    size ← lift (world.file_size path)
    hash ← lift (world.file_sha256 path)
    pure (
        obj (
          dict (
            ("mime_type", get_or "mime" (str "") item)
            ∷ ("size", int (pos size))
            ∷ ("sha256", str hash)
            ∷ ("path", str (world.path_text path))
            ∷ ("danger", str danger)
            ∷ [])))
  verified _ = lift (err type_error)

  unfoldable pub each_verified : List Value → Tool (List Value)
  each_verified [] = pure []
  each_verified (v ∷ vs) = do first ← verified v; others ← each_verified vs; pure (first ∷ others)

  -- `for item in value`: a key of an object and a character of a text have no `get`, so only an empty one is
  -- gone through.
  abbrev list_of : Value → Result (List Value)
  list_of (arr vs) = ok (to_list vs)
  list_of (obj end) = ok []
  list_of (str s) = if s == "" then ok [] else err type_error
  list_of _ = err type_error

  unfoldable pub download : (id locator timeout_ms : Value) → Tool Value
  download id locator timeout_ms = do
    g ← grant_of world id
    found ← located world locator
    lift (
        raise_if (is_empty world.policy.download_roots)
          (collaboration_error "no download roots are registered in the local browser policy"))
    limit ← lift (at_least_1000 timeout_ms)
    outcome ←
        run_plan world g
          (record (plan "download"
            (attached (
              act "start_download_capture"
                (("private_result", str "downloads") ∷ ("max_items", int (pos 4)) ∷ [])
              ∷ act "before_mutation" []
              ∷ act "click_ax" (("locator", found) ∷ [])
              ∷ act "stop_download_capture" (("timeout_ms", timeout_ms) ∷ [])
              ∷ []))
            (dict (("locator", found) ∷ ("timeout_ms", timeout_ms) ∷ []))) {
              capability = "mutation";
              private_fields = "downloads" ∷ [];
              timeout_ms = limit;
              max_repeat = 20;
            })
          null true
    capture ← lift (item_of "downloads" outcome.private)
    entries ← lift (entry_of "items" capture)
    listed ← lift (list_of entries)
    downloads ← each_verified listed
    record_step "download"
        (dict (("locator", found) ∷ ("count", int (pos (length downloads))) ∷ []))
    pure (
        obj (
          dict (
            ("status", str "ok") ∷ ("collaboration_id", id) ∷ ("downloads", array downloads) ∷ [])))

  unfoldable pub credential_fill : (id locator broker : Value) → Tool Value
  credential_fill id locator broker = do
    g ← grant_of world id
    found ← located world locator
    name ←
        lift
          (one_of ("onepassword" ∷ "browser-password-manager" ∷ []) "broker is unsupported" broker)
    let arguments : List (String × Value) = ("locator", found) ∷ ("broker", str name) ∷ []
    outcome ←
        run_plan world g
          (record (plan "credential-fill"
            (attached (
              act "focus_ax" (("locator", found) ∷ [])
              ∷ act "before_mutation" []
              ∷ act "trigger_credential_broker" (("broker", str name) ∷ [])
              ∷ []))
            (dict arguments)) { capability = "mutation" })
          null true
    record_step "credential-fill" (dict arguments)
    pure (obj (dict (mutation_receipt id outcome)))
