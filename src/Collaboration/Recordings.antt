-- ===== src/Collaboration/Recordings.antt =====
-- collaboration.py: `recording_start`, `recording_status`, `recording_stop`, `tabs` and `status`.
use llm_wiki_chrome.Prelude.{
  String, true, false, not, none, some, List, [], ◌∷◌, ◌++◌, length, is_empty,
}
use llm_wiki_chrome.Result.{ok, err, collaboration_error}
use llm_wiki_chrome.Json.{Value, Items, bool, int, pos, str, obj, arr, nil, cons, dict}
use llm_wiki_chrome.Native.Messages.{grant_items}
use llm_wiki_chrome.Collaboration.Tool.{Step, Recording, World, Tool, lift, pure, ◌>>=◌}
use llm_wiki_chrome.Collaboration.Compile.{canonical_hash}

-- `new_id` is os.urandom(16).hex()
unfoldable pub recording_start : (new_id : String) → Tool Value
recording_start new_id none = record {
  jobs = [];
  recording = some (record { recording_id = new_id; steps = [] });
  result = ok (obj (dict (("status", str "recording") ∷ ("recording_id", str new_id) ∷ [])));
}
recording_start new_id (some r) = record {
  jobs = [];
  recording = some r;
  result = err (collaboration_error "a workflow recording is already active");
}

unfoldable pub recording_status : Tool Value
recording_status none = record {
  jobs = [];
  recording = none;
  result = ok (obj (dict (("recording", bool false) ∷ ("step_count", int (pos 0)) ∷ [])));
}
recording_status (some r) = record {
  jobs = [];
  recording = some r;
  result =
      ok (obj (dict (("recording", bool true) ∷ ("step_count", int (pos (length r.steps))) ∷ [])));
}

unfoldable pub step_items : List Step → Items
step_items [] = nil
step_items (s ∷ steps) =
    cons (obj (dict (("operation", str s.operation) ∷ ("arguments", obj s.arguments) ∷ [])))
      (step_items steps)

abbrev pub macro_entries : Recording → List (String × Value)
macro_entries r =
    ("protocol", str "llm-wiki-browser-workflow-draft/v1")
    ∷ ("recording_id", str r.recording_id)
    ∷ ("steps", arr (step_items r.steps))
    ∷ ("review_required", bool true)
    ∷ ("replayable", bool false)
    ∷ []

module _ (world : World) where
  unfoldable pub recording_stop : Tool Value
  recording_stop none = record {
    jobs = [];
    recording = none;
    result = err (collaboration_error "no workflow recording is active");
  }
  recording_stop (some r) = record {
    jobs = [];
    recording = none;
    result = ok (
        obj (
          dict (
            macro_entries r
            ++ ("sha256", str (canonical_hash world.runtime (obj (dict (macro_entries r)))))
              ∷ [])));
  }

  -- `{"tabs": self.controller.tabs()}` of mcp_server.py
  unfoldable pub tabs : Tool Value
  tabs = do grants ← lift world.listed; pure (obj (dict (("tabs", arr (grant_items grants)) ∷ [])))

  unfoldable pub status : Tool Value
  status = do
    grants ← lift world.listed
    pure (
        obj (
          dict (
            ("connected", bool true)
            ∷ ("shared_tabs", int (pos (length grants)))
            ∷ ("ready", bool (not (is_empty grants)))
            ∷ [])))
