-- ===== src/Tests/Validator.antt =====
-- The validator's theorems at the two programs.
use llm_wiki_chrome.Prelude.{
  ◌⊎◌, String, List, [], ◌∷◌, ◌++◌, ℕ, ◌≤◌, ◌<◌, ◌⊎◌, ◌↔◌, inl, inr, In, Distinct, length, true,
  ◌≡◌, ◌≢◌, refl, all, any, contains, unique, subset, same_set, count, index,
}
use llm_wiki_chrome.Json.{
  null, field, end, Fields, str, arr, nil, items_of, to_list, keys, values, has, get, without,
  texts, member, obj,
}
use llm_wiki_chrome.Text.{
  prefix_of, ends_in, match_tail, match_edges, is_identifier, is_program_identifier,
  is_private_field, is_sha256, has_stacked_repeat, names_group, has_back_reference,
}
use llm_wiki_chrome.Protocol.Checks.{
  reject_unknown_keys, bounded_string, path_matches_prefix, canonical_program_sha256,
  check_forbidden_keys, check_forbidden_items, check_forbidden_fields,
}
use llm_wiki_chrome.Protocol.Actions.{
  max_levels, each_branch, branch_actions, nested_actions, each_action, iter_actions,
}
use llm_wiki_chrome.Protocol.Target.{
  prefixes_of, check_prefixes, check_target_url, target_url, validate_target,
  validate_navigation_url, number_of, validate_limits,
}
use llm_wiki_chrome.Protocol.Locator.{
  check_roles, check_name_matches, check_text_list, check_locator_fields, validate_locator,
  locator_levels, check_ax_keys, validate_ax_locator_shape, validate_dom_locator_shape,
}
use llm_wiki_chrome.Protocol.Guards.{need_member, keys_of, text_of, ax_locator}
use llm_wiki_chrome.Protocol.Interaction.{
  check_navigation, check_locators, check_waits_and_keys, check_slots, check_dialogs,
}
use llm_wiki_chrome.Protocol.Extraction.{
  check_extraction, check_screenshots, check_measurements, check_scrolling,
  check_waits_and_downloads, check_captures,
}
use llm_wiki_chrome.Protocol.Action.{check_operation, validate_action}
use llm_wiki_chrome.Protocol.Order.{
  fields_of, op_of, operations, drop, first, last, before_last, once, check_lifecycle,
  check_boundary, check_capture, check_all_captures, extracted, top_operations, check_order,
}
use llm_wiki_chrome.Protocol.Program.{
  get_or, check_driver, check_header, validate_slots, flatten_actions, check_public_fields,
  private_names, validate_result, check_actions, validate_fields, validate_program,
}
use llm_wiki_chrome.Result.{ok, err, type_error}
use llm_wiki_chrome.Protocol.Names.{mutation_only, forbidden_keys, locator_keys}
use llm_wiki_chrome.Protocol.Accepted.{actions_of}
use llm_wiki_chrome.Protocol.Boundary.{validate_program-read_only, validate_program-one_boundary}
use llm_wiki_chrome.Protocol.Lifecycle.{
  EndsIn, CaptureBalanced, validate_program-lifecycle, validate_program-captures,
}
use llm_wiki_chrome.Protocol.Forbidden.{
  KeyInside, in_object, is_key, check_forbidden_keys_iff, validate_program-no_forbidden,
}
use llm_wiki_chrome.Protocol.Coverage.{iter_actions_iff}
use llm_wiki_chrome.Protocol.Walk.{Nested}
use llm_wiki_chrome.Protocol.Confined.{Confined, destination_key, validate_program-navigation}
use llm_wiki_chrome.Protocol.Declared.{
  slot_operations, slot_key, Extracts, listed, validate_program-private_results,
  validate_program-slots, validate_program-hash,
}
use llm_wiki_chrome.Protocol.Limits.{IntBetween, validate_program-limits}
use llm_wiki_chrome.Protocol.Paths.{Admits, path_matches_prefix_iff}
use llm_wiki_chrome.Protocol.Depth.{
  Within, self, inner, validate_locator-Within, validate_ax_locator_shape-enough,
}
use llm_wiki_chrome.Tests.Data.{
  runtime, read_program, write_program, read_flat, write_flat, click, navigate, insert, button,
}

pub read_accepted : validate_program runtime (obj read_program) ≡ ok (obj read_program)
unfolding all any contains unique subset same_set count index to_list keys values has get without
    texts member prefix_of ends_in match_tail match_edges is_identifier is_program_identifier
    is_private_field is_sha256 has_stacked_repeat names_group has_back_reference reject_unknown_keys
    bounded_string path_matches_prefix canonical_program_sha256 check_forbidden_keys
    check_forbidden_items check_forbidden_fields each_branch branch_actions nested_actions
    each_action iter_actions prefixes_of check_prefixes check_target_url target_url validate_target
    validate_navigation_url number_of validate_limits check_roles check_name_matches check_text_list
    check_locator_fields validate_locator check_ax_keys validate_ax_locator_shape
    validate_dom_locator_shape need_member keys_of text_of ax_locator check_navigation
    check_locators check_waits_and_keys check_slots check_dialogs check_extraction check_screenshots
    check_measurements check_scrolling check_waits_and_downloads check_captures check_operation
    validate_action operations drop first last before_last once check_lifecycle check_boundary
    check_capture check_all_captures extracted top_operations check_order check_driver check_header
    validate_slots flatten_actions check_public_fields private_names validate_result check_actions
    validate_fields validate_program
read_accepted = refl

pub write_accepted : validate_program runtime (obj write_program) ≡ ok (obj write_program)
unfolding all any contains unique subset same_set count index to_list keys values has get without
    texts member prefix_of ends_in match_tail match_edges is_identifier is_program_identifier
    is_private_field is_sha256 has_stacked_repeat names_group has_back_reference reject_unknown_keys
    bounded_string path_matches_prefix canonical_program_sha256 check_forbidden_keys
    check_forbidden_items check_forbidden_fields each_branch branch_actions nested_actions
    each_action iter_actions prefixes_of check_prefixes check_target_url target_url validate_target
    validate_navigation_url number_of validate_limits check_roles check_name_matches check_text_list
    check_locator_fields validate_locator check_ax_keys validate_ax_locator_shape
    validate_dom_locator_shape need_member keys_of text_of ax_locator check_navigation
    check_locators check_waits_and_keys check_slots check_dialogs check_extraction check_screenshots
    check_measurements check_scrolling check_waits_and_downloads check_captures check_operation
    validate_action operations drop first last before_last once check_lifecycle check_boundary
    check_capture check_all_captures extracted top_operations check_order check_driver check_header
    validate_slots flatten_actions check_public_fields private_names validate_result check_actions
    validate_fields validate_program
write_accepted = refl

read_walk : iter_actions max_levels (actions_of read_program) ≡ ok read_flat
unfolding iter_actions each_action nested_actions branch_actions each_branch get to_list
read_walk = refl

write_walk : iter_actions max_levels (actions_of write_program) ≡ ok write_flat
unfolding iter_actions each_action nested_actions branch_actions each_branch get to_list
write_walk = refl

read_capability : get "capability" read_program ≡ str "read"
unfolding get
read_capability = refl

write_capability : get "capability" write_program ≡ str "mutation"
unfolding get
write_capability = refl

opens_first : In "open_or_focus_exact_url" (operations read_flat)
unfolding operations get text_of
opens_first = inl refl

validate_program-read_only_example : ¬ (In "open_or_focus_exact_url" mutation_only)
validate_program-read_only_example =
    validate_program-read_only runtime read_program (obj read_program) read_accepted read_flat
      "open_or_focus_exact_url" read_walk read_capability opens_first

validate_program-one_boundary_example :
    (count "before_mutation" (operations write_flat) ≡ 1)
    × (before : List String) × (after : List String) × (top_operations (get "actions" write_program)
        ≡ before ++ "before_mutation" ∷ after)
    × ¬ (In "before_mutation" before)
    × ¬ (In "before_mutation" after)
    × ¬ (In "first_success" after)
validate_program-one_boundary_example =
    validate_program-one_boundary runtime write_program (obj write_program) write_accepted
      write_flat write_walk write_capability

validate_program-lifecycle_example :
    (count "open_or_focus_exact_url" (operations write_flat) ≡ 1)
    × ((rest : List String) × (top_operations (get "actions" write_program)
          ≡ "open_or_focus_exact_url" ∷ rest))
    × ((a : List String) × (b : List String) × (c : List String) × (operations write_flat
          ≡ a ++ ("attach_debugger" ∷ (b ++ "detach_debugger" ∷ c))))
    × (count "attach_debugger" (operations write_flat) ≡ 1)
    × (count "detach_debugger" (operations write_flat) ≡ 1)
    × (EndsIn "detach_debugger" (top_operations (get "actions" write_program))
        ⊎ ((start : List String) × (top_operations (get "actions" write_program)
              ≡ start ++ "detach_debugger" ∷ "close_target_tab" ∷ [])))
validate_program-lifecycle_example =
    validate_program-lifecycle runtime write_program (obj write_program) write_flat write_accepted
      write_walk

abbrev Balanced : (start stop : String) → Type 0
Balanced start stop =
    CaptureBalanced start stop (top_operations (get "actions" read_program)) (operations read_flat)

validate_program-captures_example :
    Balanced "start_log_capture" "stop_log_capture"
    × Balanced "start_request_capture" "stop_request_capture"
    × Balanced "start_console_capture" "stop_console_capture"
    × Balanced "start_download_capture" "stop_download_capture"
validate_program-captures_example =
    validate_program-captures runtime read_program (obj read_program) read_flat read_accepted
      read_walk

protocol_inside : KeyInside "protocol" (obj read_program)
protocol_inside = in_object (is_key refl)

validate_program-no_forbidden_example : ¬ (In "protocol" forbidden_keys)
validate_program-no_forbidden_example =
    validate_program-no_forbidden runtime read_program (obj read_program) "protocol" read_accepted
      protocol_inside

check_forbidden_keys_iff_example :
    (check_forbidden_keys runtime button ≡ ok tt)
    ↔ ((key : String) → KeyInside key button → ¬ (In key forbidden_keys))
check_forbidden_keys_iff_example = check_forbidden_keys_iff runtime button

iter_actions_iff_example :
    In click read_flat
    ↔ ((depth : ℕ) × (depth < max_levels) × Nested (actions_of read_program) depth click)
iter_actions_iff_example =
    iter_actions_iff max_levels (actions_of read_program) read_flat click read_walk

navigates : In navigate read_flat
navigates = inr (inr (inl refl))

op_of-navigate :
    In
      (op_of navigate)
      ("navigate_same_origin" ∷ "create_same_origin_tab" ∷ "navigate_history" ∷ [])
unfolding get text_of
op_of-navigate = inl refl

validate_program-navigation_example :
    Confined runtime
      (fields_of (get "target" read_program))
      (get (destination_key (op_of navigate)) navigate)
validate_program-navigation_example =
    validate_program-navigation runtime read_program (obj read_program) read_flat navigate
      read_accepted read_walk navigates op_of-navigate

validate_program-private_results_example :
    Distinct (listed "private_fields" (get "result" read_program))
    × (In "rows" (listed "private_fields" (get "result" read_program)) ↔ Extracts "rows" read_flat)
validate_program-private_results_example =
    validate_program-private_results runtime read_program (obj read_program) read_flat read_accepted
      read_walk "rows"

inserts : In insert write_flat
inserts = inr (inr (inr (inr (inr (inr (inl refl))))))

op_of-insert : In (op_of insert) ("handle_dialog" ∷ slot_operations)
unfolding get text_of
op_of-insert = inr (inl refl)

validate_program-slots_example :
    ((op_of insert ≡ "handle_dialog") × (get "prompt_slot" insert ≡ null))
    ⊎ ((slot : String) × (get (slot_key (op_of insert)) insert ≡ str slot)
        × In slot (texts (items_of (get_or "private_slots" (arr nil) write_program))))
validate_program-slots_example =
    validate_program-slots runtime write_program (obj write_program) write_flat write_accepted
      write_walk insert inserts op_of-insert

validate_program-limits_example :
    IntBetween 1000 300000 (get "timeout_ms" (fields_of (get "limits" read_program)))
    × IntBetween 1 200 (get "max_actions" (fields_of (get "limits" read_program)))
    × IntBetween 1 20 (get "max_repeat" (fields_of (get "limits" read_program)))
    × (length read_flat ≤ number_of (get "max_actions" (fields_of (get "limits" read_program))))
    × (length read_flat ≤ 200)
validate_program-limits_example =
    validate_program-limits runtime read_program (obj read_program) read_flat read_accepted
      read_walk

validate_program-hash_example :
    (obj read_program ≡ obj read_program)
    × (get "program_sha256" read_program
        ≡ str (runtime.sha256 (runtime.dumps (obj (without "program_sha256" read_program)))))
validate_program-hash_example =
    validate_program-hash runtime read_program (obj read_program) read_accepted

path_matches_prefix_iff_example :
    (path_matches_prefix "/team/notes" "/team" ≡ true) ↔ Admits "/team/notes" "/team"
path_matches_prefix_iff_example = path_matches_prefix_iff "/team/notes" "/team"

abbrev nested : Fields
nested = field "role" (str "link") (field "within" button end)

nested_accepted : validate_locator runtime locator_levels (obj nested) ≡ ok tt
unfolding validate_locator check_locator_fields check_roles check_name_matches check_text_list
    reject_unknown_keys has get keys subset contains bounded_string is_identifier
nested_accepted = refl

nested_shape : validate_ax_locator_shape locator_levels (obj nested) ≡ ok tt
unfolding validate_ax_locator_shape check_ax_keys has get keys any contains
nested_shape = refl

button-Within : Within (obj nested) 1 button
unfolding has get
button-Within = inner refl self

validate_locator-Within_example :
    (1 < locator_levels)
    × ((fs : Fields) × (button ≡ obj fs) × (subset (keys fs) locator_keys ≡ true))
validate_locator-Within_example =
    validate_locator-Within runtime locator_levels {v = obj nested} {w = button} {depth = 1}
      nested_accepted button-Within

validate_ax_locator_shape-enough_example :
    validate_ax_locator_shape locator_levels (obj nested) ≢ err type_error
validate_ax_locator_shape-enough_example =
    validate_ax_locator_shape-enough runtime locator_levels (obj nested) nested_accepted
