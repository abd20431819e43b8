-- ===== src/Protocol/Action.antt =====
-- protocol.py: `_validate_action`, the groups of its checks in the order of the source.
use llm_wiki_chrome.Prelude.{String, not, List}
use llm_wiki_chrome.Result.{Result, protocol_error, raise_if, ◌>>=◌, ◌>>◌}
use llm_wiki_chrome.Json.{Fields, get, member}
use llm_wiki_chrome.Runtime.{Runtime}
use llm_wiki_chrome.Protocol.Names.{allowed_operations, action_keys}
use llm_wiki_chrome.Protocol.Checks.{reject_unknown_keys}
use llm_wiki_chrome.Protocol.Guards.{keys_of, text_of}
use llm_wiki_chrome.Protocol.Interaction.{
  check_navigation, check_locators, check_waits_and_keys, check_slots, check_dialogs,
}
use llm_wiki_chrome.Protocol.Extraction.{
  check_extraction, check_screenshots, check_measurements, check_scrolling,
  check_waits_and_downloads, check_captures,
}

module _ (r : Runtime) (slots results : List String) (target : Fields) (action : Fields) where
  unfoldable pub check_operation : String → Result (Unit {0})
  check_operation op = do
    reject_unknown_keys action (keys_of action_keys op)
    check_navigation r slots results target op action
    check_locators r slots results target op action
    check_waits_and_keys r slots results target op action
    check_slots r slots results target op action
    check_extraction r slots results target op action
    check_screenshots r slots results target op action
    check_measurements r slots results target op action
    check_scrolling r slots results target op action
    check_waits_and_downloads r slots results target op action
    check_dialogs r slots results target op action
    check_captures r slots results target op action

  unfoldable pub validate_action : Result (Unit {0})
  validate_action = do
    found ← member (get "op" action) allowed_operations
    raise_if (not found) (protocol_error "program contains an unsupported operation")
    check_operation (text_of (get "op" action))
