-- ===== src/Protocol/Names.antt =====
-- The constants of browser_executor/protocol.py: the names that a program may use.
use llm_wiki_chrome.Prelude.{ℕ, String, List, [], ◌∷◌}

abbrev pub browser_protocol : String
browser_protocol = "llm-wiki-browser-executor/v1"

abbrev pub max_program_bytes : ℕ
max_program_bytes = 262_144

abbrev pub max_string_bytes : ℕ
max_string_bytes = 16_384

abbrev pub top_level_keys : List String
top_level_keys =
    "protocol" ∷ "program_id" ∷ "program_sha256" ∷ "plan_sha256" ∷ "driver" ∷ "capability"
    ∷ "target" ∷ "limits" ∷ "private_slots" ∷ "actions" ∷ "result" ∷ []

abbrev pub allowed_operations : List String
allowed_operations =
    "open_or_focus_exact_url" ∷ "navigate_same_origin" ∷ "create_same_origin_tab"
    ∷ "navigate_history" ∷ "close_target_tab" ∷ "reload_exact_target" ∷ "assert_exact_target"
    ∷ "attach_debugger" ∷ "detach_debugger" ∷ "wait_ax" ∷ "wait_dom" ∷ "assert_ax" ∷ "first_success"
    ∷ "click_ax" ∷ "click_dom" ∷ "focus_ax" ∷ "hover_ax" ∷ "drag_ax" ∷ "select_ax_option"
    ∷ "scroll_ax_into_view" ∷ "dispatch_key_chord" ∷ "insert_private_text"
    ∷ "assert_ax_private_value" ∷ "wait_ax_private_value" ∷ "assert_ax_private_sha256"
    ∷ "extract_ax" ∷ "extract_ax_collection" ∷ "collect_ax_by_scrolling"
    ∷ "capture_viewport_private" ∷ "capture_region_private" ∷ "capture_full_page_private"
    ∷ "extract_ax_geometry" ∷ "capture_performance_private" ∷ "scroll_viewport" ∷ "wait_duration"
    ∷ "set_private_files" ∷ "start_download_capture" ∷ "stop_download_capture" ∷ "handle_dialog"
    ∷ "trigger_credential_broker" ∷ "start_log_capture" ∷ "stop_log_capture"
    ∷ "start_request_capture" ∷ "stop_request_capture" ∷ "start_console_capture"
    ∷ "stop_console_capture" ∷ "before_mutation" ∷ []

abbrev pub forbidden_keys : List String
forbidden_keys =
    "javascript" ∷ "script" ∷ "expression" ∷ "runtime_evaluate" ∷ "cdp_method" ∷ "cookie"
    ∷ "storage" ∷ "network" ∷ []

abbrev pub mutation_only : List String
mutation_only =
    "insert_private_text" ∷ "before_mutation" ∷ "drag_ax" ∷ "select_ax_option" ∷ "set_private_files"
    ∷ "handle_dialog" ∷ "trigger_credential_broker" ∷ "create_same_origin_tab" ∷ "navigate_history"
    ∷ "close_target_tab" ∷ []

abbrev pub public_result_fields : List String
public_result_fields = "status" ∷ "action_count" ∷ "mutation_started" ∷ "private_result_count" ∷ []

abbrev pub locator_keys : List String
locator_keys =
    "selector" ∷ "role" ∷ "roles" ∷ "name" ∷ "name_contains" ∷ "name_contains_any" ∷ "name_matches"
    ∷ "within" ∷ "within_name_contains_any" ∷ "ordinal" ∷ "visible" ∷ "checked" ∷ "focused"
    ∷ "unique" ∷ []

abbrev pub locator_operations : List String
locator_operations =
    "wait_ax" ∷ "wait_dom" ∷ "assert_ax" ∷ "click_ax" ∷ "click_dom" ∷ "focus_ax" ∷ "hover_ax"
    ∷ "scroll_ax_into_view" ∷ "drag_ax" ∷ "select_ax_option" ∷ "set_private_files"
    ∷ "extract_ax_geometry" ∷ "extract_ax" ∷ "extract_ax_collection" ∷ "collect_ax_by_scrolling"
    ∷ "assert_ax_private_sha256" ∷ []

abbrev pub dom_locator_operations : List String
dom_locator_operations = "wait_dom" ∷ "click_dom" ∷ []

abbrev pub ax_identity_keys : List String
ax_identity_keys =
    "role" ∷ "roles" ∷ "name" ∷ "name_contains" ∷ "name_contains_any" ∷ "name_matches" ∷ "within"
    ∷ "within_name_contains_any" ∷ []

abbrev pub extraction_fields : List String
extraction_fields = "name" ∷ "role" ∷ "value" ∷ "description" ∷ "url" ∷ "checked" ∷ "focused" ∷ []

abbrev pub key_names : List String
key_names =
    "platform-primary" ∷ "control" ∷ "meta" ∷ "alt" ∷ "shift" ∷ "enter" ∷ "escape" ∷ "tab"
    ∷ "arrow-up" ∷ "arrow-down" ∷ "arrow-left" ∷ "arrow-right" ∷ "backspace" ∷ "delete" ∷ "a" ∷ "b"
    ∷ "c" ∷ "d" ∷ "e" ∷ "f" ∷ "g" ∷ "h" ∷ "i" ∷ "j" ∷ "k" ∷ "l" ∷ "m" ∷ "n" ∷ "o" ∷ "p" ∷ "q" ∷ "r"
    ∷ "s" ∷ "t" ∷ "u" ∷ "v" ∷ "w" ∷ "x" ∷ "y" ∷ "z" ∷ "0" ∷ "1" ∷ "2" ∷ "3" ∷ "4" ∷ "5" ∷ "6" ∷ "7"
    ∷ "8" ∷ "9" ∷ []

-- A fixed table; `ACTION_KEYS[operation]` is `keys_for` of Protocol/Action.antt.
abbrev pub action_keys : List (String × List String)
action_keys =
    ("open_or_focus_exact_url", "op" ∷ [])
    ∷ ("navigate_same_origin", "op" ∷ "url" ∷ [])
    ∷ ("create_same_origin_tab", "op" ∷ "url" ∷ [])
    ∷ ("navigate_history", "op" ∷ "direction" ∷ "expected_url" ∷ [])
    ∷ ("close_target_tab", "op" ∷ [])
    ∷ ("reload_exact_target", "op" ∷ "ignore_cache" ∷ [])
    ∷ ("assert_exact_target", "op" ∷ [])
    ∷ ("attach_debugger", "op" ∷ [])
    ∷ ("detach_debugger", "op" ∷ [])
    ∷ ("before_mutation", "op" ∷ [])
    ∷ ("stop_log_capture", "op" ∷ [])
    ∷ ("stop_request_capture", "op" ∷ [])
    ∷ ("stop_console_capture", "op" ∷ [])
    ∷ ("wait_ax", "op" ∷ "locator" ∷ "timeout_ms" ∷ [])
    ∷ ("wait_dom", "op" ∷ "locator" ∷ "timeout_ms" ∷ [])
    ∷ ("assert_ax", "op" ∷ "locator" ∷ [])
    ∷ ("click_ax", "op" ∷ "locator" ∷ [])
    ∷ ("click_dom", "op" ∷ "locator" ∷ [])
    ∷ ("focus_ax", "op" ∷ "locator" ∷ [])
    ∷ ("hover_ax", "op" ∷ "locator" ∷ [])
    ∷ ("scroll_ax_into_view", "op" ∷ "locator" ∷ [])
    ∷ ("drag_ax", "op" ∷ "locator" ∷ "destination" ∷ "steps" ∷ [])
    ∷ ("select_ax_option", "op" ∷ "locator" ∷ "option_locator" ∷ [])
    ∷ ("dispatch_key_chord", "op" ∷ "keys" ∷ [])
    ∷ ("insert_private_text", "op" ∷ "slot" ∷ "replace_all" ∷ [])
    ∷ ("assert_ax_private_value", "op" ∷ "slot" ∷ [])
    ∷ ("wait_ax_private_value", "op" ∷ "slot" ∷ "timeout_ms" ∷ [])
    ∷ ("assert_ax_private_sha256", "op" ∷ "slot" ∷ "locator" ∷ "fields" ∷ "max_items" ∷ [])
    ∷ ("extract_ax", "op" ∷ "locator" ∷ "fields" ∷ "private_result" ∷ "max_items" ∷ [])
    ∷ ("extract_ax_collection", "op" ∷ "locator" ∷ "fields" ∷ "private_result" ∷ "max_items" ∷ [])
    ∷ (
      "collect_ax_by_scrolling",
      "op" ∷ "locator" ∷ "fields" ∷ "private_result" ∷ "max_items" ∷ "direction" ∷ "distance_px"
          ∷ "max_scrolls" ∷ "settle_ms" ∷ "dedupe_fields" ∷ "stable_rounds" ∷ "scroll_anchor" ∷ [],
    )
    ∷ ("capture_viewport_private", "op" ∷ "private_result" ∷ "quality" ∷ "max_bytes" ∷ [])
    ∷ (
      "capture_region_private",
      "op" ∷ "private_result" ∷ "quality" ∷ "max_bytes" ∷ "x" ∷ "y" ∷ "width" ∷ "height" ∷ [],
    )
    ∷ (
      "capture_full_page_private",
      "op" ∷ "private_result" ∷ "quality" ∷ "max_bytes" ∷ "max_width" ∷ "max_height" ∷ [],
    )
    ∷ ("extract_ax_geometry", "op" ∷ "locator" ∷ "private_result" ∷ "max_items" ∷ [])
    ∷ ("capture_performance_private", "op" ∷ "private_result" ∷ "max_metrics" ∷ [])
    ∷ ("scroll_viewport", "op" ∷ "direction" ∷ "distance_px" ∷ [])
    ∷ ("wait_duration", "op" ∷ "duration_ms" ∷ [])
    ∷ ("set_private_files", "op" ∷ "locator" ∷ "slot" ∷ "max_files" ∷ [])
    ∷ ("start_download_capture", "op" ∷ "private_result" ∷ "max_items" ∷ [])
    ∷ ("stop_download_capture", "op" ∷ "timeout_ms" ∷ [])
    ∷ ("handle_dialog", "op" ∷ "accept" ∷ "prompt_slot" ∷ [])
    ∷ ("trigger_credential_broker", "op" ∷ "broker" ∷ [])
    ∷ ("start_log_capture", "op" ∷ "private_result" ∷ "max_entries" ∷ "max_text_bytes" ∷ [])
    ∷ ("start_request_capture", "op" ∷ "private_result" ∷ "max_entries" ∷ "max_url_bytes" ∷ [])
    ∷ (
      "start_console_capture",
      "op" ∷ "private_result" ∷ "max_entries" ∷ "max_arguments" ∷ "max_argument_bytes" ∷ [],
    )
    ∷ ("first_success", "op" ∷ "branches" ∷ [])
    ∷ []
