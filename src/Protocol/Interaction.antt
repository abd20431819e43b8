-- ===== src/Protocol/Interaction.antt =====
-- protocol.py: the checks of `_validate_action` on navigation, locators, waits, keys, private
-- slots and dialogs.
use llm_wiki_chrome.Prelude.{
  String, not, ◌||◌, ◌&&◌, List, [], ◌∷◌, ◌==◌, within, length, all, unique, contains,
  if◌then◌else◌,
}
use llm_wiki_chrome.Result.{Result, err, protocol_error, raise_if, when, ◌>>◌}
use llm_wiki_chrome.Json.{Value, Fields, arr, to_list, get, is_bool, is_null, str_and, texts}
use llm_wiki_chrome.Runtime.{Runtime}
use llm_wiki_chrome.Protocol.Names.{locator_operations, dom_locator_operations, key_names}
use llm_wiki_chrome.Protocol.Target.{validate_navigation_url}
use llm_wiki_chrome.Protocol.Locator.{
  validate_locator, locator_levels, validate_ax_locator_shape, validate_dom_locator_shape,
}
use llm_wiki_chrome.Protocol.Guards.{for_op, need_int, need_member, ax_locator, is_false}

module _ (r : Runtime) (slots results : List String) (target : Fields) (op : String)
    (action : Fields) where
  unfoldable pub check_navigation : Result (Unit {0})
  check_navigation = do
    for_op ("navigate_same_origin" ∷ "create_same_origin_tab" ∷ []) op
        (validate_navigation_url r (get "url" action) target)
    for_op ("navigate_history" ∷ []) op (do
      need_member (get "direction" action) ("back" ∷ "forward" ∷ [])
          "history direction must be back or forward"
      validate_navigation_url r (get "expected_url" action) target)
    raise_if (op == "reload_exact_target" && not (is_bool (get "ignore_cache" action)))
        (protocol_error "reload_exact_target requires ignore_cache")

  unfoldable pub check_locators : Result (Unit {0})
  check_locators = do
    for_op locator_operations op (do
      validate_locator r locator_levels (get "locator" action)
      (if contains dom_locator_operations op
          then validate_dom_locator_shape (get "locator" action)
          else validate_ax_locator_shape locator_levels (get "locator" action)))
    for_op ("drag_ax" ∷ []) op (do
      ax_locator r "destination" action
      need_int "steps" 2 50 action "drag steps are out of bounds")
    for_op ("select_ax_option" ∷ []) op (ax_locator r "option_locator" action)

  check_chord : Value → Result (Unit {0})
  check_chord (arr vs) = do
    raise_if
        (not (within 1 5 (length (to_list vs)))
          || not (all (str_and (contains key_names)) (to_list vs)))
        (protocol_error "key chord is invalid or unbounded")
    raise_if (not (unique (texts (to_list vs))))
        (protocol_error "key chord is invalid or unbounded")
  check_chord _ = err (protocol_error "key chord is invalid or unbounded")

  unfoldable pub check_waits_and_keys : Result (Unit {0})
  unfolding check_chord
  check_waits_and_keys = do
    for_op ("wait_ax" ∷ "wait_dom" ∷ "wait_ax_private_value" ∷ []) op
        (need_int "timeout_ms" 50 300000 action "wait timeout_ms must be between 50 and 300000")
    for_op ("dispatch_key_chord" ∷ []) op (check_chord (get "keys" action))

  unfoldable pub check_slots : Result (Unit {0})
  check_slots =
      for_op
        ("insert_private_text" ∷ "assert_ax_private_value" ∷ "wait_ax_private_value"
          ∷ "assert_ax_private_sha256" ∷ "set_private_files" ∷ [])
        op
        (do
          need_member (get "slot" action) slots "action references an undeclared private slot"
          raise_if (op == "insert_private_text" && not (is_bool (get "replace_all" action)))
              (protocol_error "insert_private_text requires replace_all")
          for_op ("set_private_files" ∷ []) op
              (need_int "max_files" 1 16 action "file upload max_files is out of bounds"))

  unfoldable pub check_dialogs : Result (Unit {0})
  check_dialogs = do
    for_op ("handle_dialog" ∷ []) op (do
      raise_if (not (is_bool (get "accept" action)))
          (protocol_error "dialog action requires accept")
      when (not (is_null (get "prompt_slot" action))) (
          need_member (get "prompt_slot" action) slots
            "dialog action references an undeclared private slot")
      raise_if (is_false (get "accept" action) && not (is_null (get "prompt_slot" action)))
          (protocol_error "dismissed dialogs cannot include prompt text"))
    for_op ("trigger_credential_broker" ∷ []) op (
        need_member (get "broker" action) ("onepassword" ∷ "browser-password-manager" ∷ [])
          "credential broker is unsupported")
