-- ===== src/Collaboration/Pages.antt =====
-- collaboration.py: `focus`, `open`, `history`, `close`, `navigate` and `reload`.
use llm_wiki_chrome.Prelude.{true, false, [], ◌∷◌, ◌++◌, if◌then◌else◌}
use llm_wiki_chrome.Json.{Value, null, bool, str, obj, dict}
use llm_wiki_chrome.Protocol.Target.{or_value_error}
use llm_wiki_chrome.Native.Messages.{grant_value}
use llm_wiki_chrome.Collaboration.Locator.{bounded_text}
use llm_wiki_chrome.Collaboration.Tool.{World, Tool, lift, pure, ◌>>=◌, ◌>>◌}
use llm_wiki_chrome.Collaboration.Compile.{
  plan, mutation_receipt, await_grant, attempts, check_same_origin, boolean, one_of,
}
use llm_wiki_chrome.Collaboration.Calls.{record_step, done, act, attached, grant_of, run_plan}

module _ (world : World) where
  unfoldable pub focus : (id : Value) → Tool Value
  focus id = do
    g ← grant_of world id
    outcome ←
        run_plan world g (plan "focus" (attached []) (dict (("focus", bool true) ∷ []))) null false
    pure (done id)

  -- `open`
  unfoldable pub open_url : (id url : Value) → Tool Value
  open_url id url = do
    g ← grant_of world id
    target ← lift (bounded_text 16384 url)
    lift (
        check_same_origin "url must be an exact same-origin HTTPS URL without a fragment"
          world.runtime g target)
    outcome ←
        run_plan world g
          (record (plan "open"
            (act "open_or_focus_exact_url" []
              ∷ act "before_mutation" []
              ∷ act "create_same_origin_tab" (("url", str target) ∷ [])
              ∷ act "assert_exact_target" []
              ∷ act "attach_debugger" []
              ∷ act "detach_debugger" []
              ∷ [])
            (dict (("url_sha256", str (world.runtime.sha256 target)) ∷ []))) {
              capability = "mutation";
            })
          null true
    created ← lift (await_grant world attempts 0 target)
    record_step "open" (dict (("url", str target) ∷ []))
    pure (obj (dict (("status", str "ok") ∷ ("tab", grant_value created) ∷ [])))

  unfoldable pub history : (id direction expected_url : Value) → Tool Value
  history id direction expected_url = do
    g ← grant_of world id
    way ← lift (one_of ("back" ∷ "forward" ∷ []) "direction must be back or forward" direction)
    target ← lift (bounded_text 16384 expected_url)
    lift (
        check_same_origin "expected_url must be an exact same-origin HTTPS URL" world.runtime g
          target)
    outcome ←
        run_plan world g
          (record (plan "history"
            (attached (
              act "before_mutation" []
              ∷ act "navigate_history" (("direction", str way) ∷ ("expected_url", str target) ∷ [])
              ∷ []))
            (dict (
              ("direction", str way)
              ∷ ("expected_url_sha256", str (world.runtime.sha256 target))
              ∷ []))) { capability = "mutation" })
          null true
    record_step "history" (dict (("direction", str way) ∷ ("expected_url", str target) ∷ []))
    tab ← lift (await_grant world attempts 0 target)
    pure (obj (dict (mutation_receipt id outcome ++ ("tab", grant_value tab) ∷ [])))

  -- `close`
  unfoldable pub close_tab : (id : Value) → Tool Value
  close_tab id = do
    g ← grant_of world id
    outcome ←
        run_plan world g
          (record (plan "close"
            (act "open_or_focus_exact_url" []
              ∷ act "assert_exact_target" []
              ∷ act "attach_debugger" []
              ∷ act "before_mutation" []
              ∷ act "detach_debugger" []
              ∷ act "close_target_tab" []
              ∷ [])
            (dict (("close", bool true) ∷ []))) { capability = "mutation" })
          null true
    record_step "close" (dict [])
    pure (obj (dict (mutation_receipt id outcome)))

  unfoldable pub navigate : (id url ignore_cache : Value) → Tool Value
  navigate id url ignore_cache = do
    g ← grant_of world id
    target ← lift (bounded_text 16384 url)
    current ← lift (or_value_error (world.runtime.urlsplit g.url))
    lift (
        check_same_origin "url must be an exact same-origin HTTPS URL without a fragment"
          world.runtime g target)
    fresh ← lift (boolean "ignore_cache must be boolean" ignore_cache)
    outcome ←
        run_plan world g
          (record (plan "navigate"
            (attached (
              act "before_mutation" []
              ∷ act "navigate_same_origin" (("url", str target) ∷ [])
              ∷ (if fresh
                  then act "reload_exact_target" (("ignore_cache", bool true) ∷ []) ∷ []
                  else [])))
            (dict (
              ("url_sha256", str (world.runtime.sha256 target))
              ∷ ("ignore_cache", bool fresh)
              ∷ ("from_path", str current.path)
              ∷ []))) { capability = "mutation" })
          null true
    record_step "navigate" (dict (("url", str target) ∷ ("ignore_cache", bool fresh) ∷ []))
    tab ← lift (await_grant world attempts 0 target)
    pure (obj (dict (mutation_receipt id outcome ++ ("tab", grant_value tab) ∷ [])))

  unfoldable pub reload : (id ignore_cache : Value) → Tool Value
  reload id ignore_cache = do
    g ← grant_of world id
    fresh ← lift (boolean "ignore_cache must be boolean" ignore_cache)
    outcome ←
        run_plan world g
          (plan "reload"
            (attached (act "reload_exact_target" (("ignore_cache", bool fresh) ∷ []) ∷ []))
            (dict (("ignore_cache", bool fresh) ∷ [])))
          null false
    record_step "reload" (dict (("ignore_cache", bool fresh) ∷ []))
    pure (done id)
