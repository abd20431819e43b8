-- ===== src/Protocol/Extraction.antt =====
-- protocol.py: the checks of `_validate_action` on extraction, screenshots, measurements,
-- scrolling, downloads and captures.
use llm_wiki_chrome.Prelude.{
  String, not, ◌||◌, List, [], ◌∷◌, ◌==◌, ltb, within, length, all, unique, subset, if◌then◌else◌,
}
use llm_wiki_chrome.Result.{Result, err, protocol_error, type_error, raise_if, when, ◌>>◌}
use llm_wiki_chrome.Json.{
  Value, Fields, arr, to_list, get, is_str, is_hashable, texts, int_within, number_within,
}
use llm_wiki_chrome.Runtime.{Runtime}
use llm_wiki_chrome.Protocol.Names.{extraction_fields}
use llm_wiki_chrome.Protocol.Target.{number_of}
use llm_wiki_chrome.Protocol.Guards.{for_op, need_int, need_member, ax_locator}

module _ (r : Runtime) (slots results : List String) (target : Fields) (op : String)
    (action : Fields) where
  check_fields : Value → Result (Unit {0})
  check_fields (arr vs) = do
    raise_if
        (not (within 1 (length extraction_fields) (length (to_list vs)))
          || not (all is_str (to_list vs))
          || not (subset (texts (to_list vs)) extraction_fields))
        (protocol_error "extraction fields are invalid")
    raise_if (not (unique (texts (to_list vs)))) (protocol_error "extraction fields are invalid")
  check_fields _ = err (protocol_error "extraction fields are invalid")

  unfoldable pub check_extraction : Result (Unit {0})
  unfolding check_fields
  check_extraction = do
    for_op
        ("extract_ax" ∷ "extract_ax_collection" ∷ "collect_ax_by_scrolling"
          ∷ "assert_ax_private_sha256" ∷ [])
        op
        (do
          check_fields (get "fields" action)
          when (not (op == "assert_ax_private_sha256")) (
              need_member (get "private_result" action) results
                "extraction references an undeclared private result")
          need_int "max_items" 1 (if op == "extract_ax" then 100 else 5000) action
              "extraction max_items is out of bounds")
    for_op ("collect_ax_by_scrolling" ∷ []) op (ax_locator r "scroll_anchor" action)

  unfoldable pub check_screenshots : Result (Unit {0})
  check_screenshots = do
    for_op
        ("capture_viewport_private" ∷ "capture_region_private" ∷ "capture_full_page_private" ∷ [])
        op
        (do
          need_member (get "private_result" action) results
              "screenshot references an undeclared private result"
          need_int "quality" 10 90 action "screenshot quality is out of bounds"
          need_int "max_bytes" 16384 262144 action "screenshot max_bytes is out of bounds")
    for_op ("capture_region_private" ∷ []) op (do
      raise_if (not (number_within 0 100000 (get "x" action)))
          (protocol_error "screenshot region origin is out of bounds")
      raise_if (not (number_within 0 100000 (get "y" action)))
          (protocol_error "screenshot region origin is out of bounds")
      raise_if (not (number_within 1 10000 (get "width" action)))
          (protocol_error "screenshot region size is out of bounds")
      raise_if (not (number_within 1 10000 (get "height" action)))
          (protocol_error "screenshot region size is out of bounds"))
    for_op ("capture_full_page_private" ∷ []) op (do
      need_int "max_width" 1 20000 action "full-page screenshot dimensions are out of bounds"
      need_int "max_height" 1 20000 action "full-page screenshot dimensions are out of bounds")

  unfoldable pub check_measurements : Result (Unit {0})
  check_measurements = do
    for_op ("extract_ax_geometry" ∷ []) op (do
      need_member (get "private_result" action) results
          "geometry extraction references an undeclared private result"
      need_int "max_items" 1 500 action "geometry extraction max_items is out of bounds")
    for_op ("capture_performance_private" ∷ []) op (do
      need_member (get "private_result" action) results
          "performance capture references an undeclared private result"
      need_int "max_metrics" 1 100 action "performance max_metrics is out of bounds")

  -- A list or an object among the fields cannot enter the set that the length is compared with.
  check_dedupe : List String → Value → Result (Unit {0})
  check_dedupe fields (arr vs) = do
    raise_if (not (within 1 (length fields) (length (to_list vs))))
        (protocol_error "scrolling collection dedupe_fields are invalid")
    raise_if (not (all is_hashable (to_list vs))) type_error
    raise_if
        (not (all is_str (to_list vs))
          || not (unique (texts (to_list vs)))
          || not (subset (texts (to_list vs)) fields))
        (protocol_error "scrolling collection dedupe_fields are invalid")
  check_dedupe fields _ = err (protocol_error "scrolling collection dedupe_fields are invalid")

  field_names : Value → List String
  field_names (arr vs) = texts (to_list vs)
  field_names _ = []

  unfoldable pub check_scrolling : Result (Unit {0})
  unfolding check_dedupe field_names
  check_scrolling = do
    for_op ("scroll_viewport" ∷ "collect_ax_by_scrolling" ∷ []) op (do
      need_member (get "direction" action) ("up" ∷ "down" ∷ [])
          "scroll direction must be up or down"
      need_int "distance_px" 1 10000 action "scroll distance_px is out of bounds")
    for_op ("collect_ax_by_scrolling" ∷ []) op (do
      need_int "max_scrolls" 1 20 action "scrolling collection max_scrolls is out of bounds"
      need_int "settle_ms" 50 3000 action "scrolling collection settle_ms is out of bounds"
      raise_if
          (not (int_within 1 3 (get "stable_rounds" action))
            || ltb (number_of (get "max_scrolls" action)) (number_of (get "stable_rounds" action)))
          (protocol_error "scrolling collection stable_rounds is out of bounds")
      check_dedupe (field_names (get "fields" action)) (get "dedupe_fields" action))

  unfoldable pub check_waits_and_downloads : Result (Unit {0})
  check_waits_and_downloads = do
    for_op ("wait_duration" ∷ []) op
        (need_int "duration_ms" 20 30000 action "wait duration is out of bounds")
    for_op ("start_download_capture" ∷ []) op (do
      need_member (get "private_result" action) results
          "download capture references an undeclared private result"
      need_int "max_items" 1 16 action "download capture max_items is out of bounds")
    for_op ("stop_download_capture" ∷ []) op
        (need_int "timeout_ms" 100 120000 action "download capture timeout is out of bounds")

  unfoldable pub check_captures : Result (Unit {0})
  check_captures = do
    for_op ("start_log_capture" ∷ []) op (do
      need_member (get "private_result" action) results
          "log capture references an undeclared private result"
      need_int "max_entries" 1 500 action "log capture max_entries is out of bounds"
      need_int "max_text_bytes" 256 16384 action "log capture max_text_bytes is out of bounds")
    for_op ("start_request_capture" ∷ []) op (do
      need_member (get "private_result" action) results
          "request capture references an undeclared private result"
      need_int "max_entries" 1 500 action "request capture max_entries is out of bounds"
      need_int "max_url_bytes" 256 16384 action "request capture max_url_bytes is out of bounds")
    for_op ("start_console_capture" ∷ []) op (do
      need_member (get "private_result" action) results
          "console capture references an undeclared private result"
      need_int "max_entries" 1 500 action "console capture max_entries is out of bounds"
      need_int "max_arguments" 1 20 action "console capture max_arguments is out of bounds"
      need_int "max_argument_bytes" 256 16384 action
          "console capture max_argument_bytes is out of bounds")
