-- ===== src/Collaboration/Calls.antt =====
-- collaboration.py: `_record`, and the call of the client that the methods share.
use llm_wiki_chrome.Prelude.{
  ℕ, String, Bool, List, none, some, [], ◌∷◌, ◌++◌, leb, length, if◌then◌else◌,
}
use llm_wiki_chrome.Result.{ok, err, collaboration_error}
use llm_wiki_chrome.Json.{Value, Fields, str, obj, dict}
use llm_wiki_chrome.Protocol.Locator.{locator_levels}
use llm_wiki_chrome.Grants.Defs.{Grant}
use llm_wiki_chrome.Client.Outcome.{Outcome}
use llm_wiki_chrome.Collaboration.Locator.{semantic_locator}
use llm_wiki_chrome.Collaboration.Tool.{World, Tool, lift, pure, client_run, ◌>>=◌, ◌>>◌}
use llm_wiki_chrome.Collaboration.Compile.{Plan, program, granted, require_ok}

abbrev pub max_steps : ℕ
max_steps = 200

unfoldable pub record_step : String → Fields → Tool (Unit {0})
record_step operation arguments none = record { jobs = []; recording = none; result = ok tt }
record_step operation arguments (some r) =
    if leb max_steps (length r.steps)
    then record {
      jobs = [];
      recording = some r;
      result = err (collaboration_error "workflow recording reached its bounded step limit");
    }
    else record {
      jobs = [];
      recording = some (record {
        recording_id = r.recording_id;
        steps = r.steps ++ record { operation = operation; arguments = arguments } ∷ [];
      });
      result = ok tt;
    }

abbrev pub done : Value → Value
done id = obj (dict (("status", str "ok") ∷ ("collaboration_id", id) ∷ []))

-- One action of a program.
abbrev pub act : String → List (String × Value) → Value
act op rest = obj (dict (("op", str op) ∷ rest))

-- The actions between attaching and detaching.
abbrev pub attached : List Value → List Value
attached actions =
    act "open_or_focus_exact_url" []
    ∷ act "assert_exact_target" []
    ∷ act "attach_debugger" []
    ∷ (actions ++ act "detach_debugger" [] ∷ [])

module _ (world : World) where
  unfoldable pub grant_of : (collaboration_id : Value) → Tool Grant
  grant_of id = lift (granted world id)

  -- `self.client.run(_program(...), ...)` and `_require_ok`
  unfoldable pub run_plan :
      Grant → Plan → (private_values : Value) → (authorizes : Bool) → Tool Outcome
  run_plan g p private_values authorizes = do
    compiled ← lift (program world.runtime g p)
    outcome ←
        client_run world
          (record { program = compiled; private_values = private_values; authorizes = authorizes })
    lift (require_ok outcome)
    pure outcome

  -- `_validate_locator`
  unfoldable pub located : Value → Tool Value
  located locator = lift (semantic_locator world.runtime locator_levels locator)
