-- ===== src/Collaboration/Reading.antt =====
-- collaboration.py: the tools that read the page: `snapshot`, `wait`, `screenshot`,
-- `region_screenshot`, `full_page_screenshot`, `geometry`, `hover`, `scroll`, `scroll_to` and
-- `diagnostics`.
use llm_wiki_chrome.Prelude.{ℕ, String, false, not, List, [], ◌∷◌, ◌+◌}
use llm_wiki_chrome.Result.{err, collaboration_error, type_error, raise_if}
use llm_wiki_chrome.Json.{Value, null, int, pos, str, obj, dict, text_array, number_within}
use llm_wiki_chrome.Protocol.Program.{get_or}
use llm_wiki_chrome.Collaboration.Tool.{World, Tool, lift, pure, ◌>>=◌, ◌>>◌}
use llm_wiki_chrome.Collaboration.Compile.{
  plan, greater, bounded_int, one_of, item_of, entry_of, spread,
}
use llm_wiki_chrome.Collaboration.Calls.{
  record_step, done, act, attached, grant_of, run_plan, located,
}

module _ (world : World) where
  unfoldable pub snapshot : (id max_items : Value) → Tool Value
  snapshot id max_items = do
    count ← lift (bounded_int 1 1500 "max_items must be between 1 and 1500" max_items)
    g ← grant_of world id
    let names : List String =
        "role" ∷ "name" ∷ "value" ∷ "description" ∷ "url" ∷ "checked" ∷ "focused" ∷ []
    outcome ←
        run_plan world g
          (record (plan "snapshot"
            (attached (
              act "extract_ax_collection" (
                ("locator", obj (dict (("name_matches", str ".+") ∷ [])))
                ∷ ("fields", text_array names)
                ∷ ("private_result", str "page.ax")
                ∷ ("max_items", int (pos count))
                ∷ [])
              ∷ []))
            (dict (("max_items", int (pos count)) ∷ ("fields", text_array names) ∷ []))) {
              private_fields = "page.ax" ∷ [];
            })
          null false
    nodes ← lift (item_of "page.ax" outcome.private)
    pure (obj (dict (("collaboration_id", id) ∷ ("url", str g.url) ∷ ("nodes", nodes) ∷ [])))

  unfoldable pub wait : (id locator timeout_ms : Value) → Tool Value
  wait id locator timeout_ms = do
    timeout ← lift (bounded_int 50 300000 "timeout_ms must be between 50 and 300000" timeout_ms)
    g ← grant_of world id
    found ← located world locator
    outcome ←
        run_plan world g
          (record (plan "wait"
            (attached
              (act "wait_ax" (("locator", found) ∷ ("timeout_ms", int (pos timeout)) ∷ []) ∷ []))
            (dict (("locator", found) ∷ ("timeout_ms", int (pos timeout)) ∷ []))) {
              timeout_ms = int (pos (greater 1000 timeout));
            })
          null false
    record_step "wait" (dict (("locator", found) ∷ ("timeout_ms", int (pos timeout)) ∷ []))
    pure (done id)

  unfoldable pub screenshot : (id quality max_bytes : Value) → Tool Value
  screenshot id quality max_bytes = do
    percent ← lift (bounded_int 10 90 "quality must be between 10 and 90" quality)
    bytes ← lift (bounded_int 16384 262144 "max_bytes must be between 16384 and 262144" max_bytes)
    g ← grant_of world id
    outcome ←
        run_plan world g
          (record (plan "screenshot"
            (attached (
              act "capture_viewport_private" (
                ("private_result", str "page.viewport")
                ∷ ("quality", int (pos percent))
                ∷ ("max_bytes", int (pos bytes))
                ∷ [])
              ∷ []))
            (dict (("quality", int (pos percent)) ∷ ("max_bytes", int (pos bytes)) ∷ []))) {
              private_fields = "page.viewport" ∷ [];
            })
          null false
    capture ← lift (item_of "page.viewport" outcome.private)
    mime_type ← lift (entry_of "mime_type" capture)
    data_base64 ← lift (entry_of "data_base64" capture)
    pure (
        obj (
          dict (
            ("collaboration_id", id)
            ∷ ("url", str g.url)
            ∷ ("mime_type", mime_type)
            ∷ ("data_base64", data_base64)
            ∷ [])))

  -- `{"collaboration_id": ..., "url": ..., **capture}`
  abbrev pub captured : Value → String → Value → Tool Value
  captured id url (obj capture) =
      pure (obj (spread capture (dict (("collaboration_id", id) ∷ ("url", str url) ∷ []))))
  captured id url _ = lift (err type_error)

  abbrev in_bounds : ℕ → ℕ → Value → Tool (Unit {0})
  in_bounds lo hi v =
      lift (raise_if (not (number_within lo hi v)) (collaboration_error "is out of bounds"))

  unfoldable pub region_screenshot : (id x y width height quality : Value) → Tool Value
  region_screenshot id x y width height quality = do
    g ← grant_of world id
    in_bounds 0 100000 x
    in_bounds 0 100000 y
    in_bounds 1 10000 width
    in_bounds 1 10000 height
    percent ← lift (bounded_int 10 90 "quality must be between 10 and 90" quality)
    outcome ←
        run_plan world g
          (record (plan "region-screenshot"
            (attached (
              act "capture_region_private" (
                ("private_result", str "page.region")
                ∷ ("quality", int (pos percent))
                ∷ ("max_bytes", int (pos 262144))
                ∷ ("x", x)
                ∷ ("y", y)
                ∷ ("width", width)
                ∷ ("height", height)
                ∷ [])
              ∷ []))
            (dict (
              ("x", x)
              ∷ ("y", y)
              ∷ ("width", width)
              ∷ ("height", height)
              ∷ ("quality", int (pos percent))
              ∷ []))) { private_fields = "page.region" ∷ [] })
          null false
    capture ← lift (item_of "page.region" outcome.private)
    captured id g.url capture

  unfoldable pub full_page_screenshot : (id quality : Value) → Tool Value
  full_page_screenshot id quality = do
    g ← grant_of world id
    percent ← lift (bounded_int 10 90 "quality must be between 10 and 90" quality)
    outcome ←
        run_plan world g
          (record (plan "full-page-screenshot"
            (attached (
              act "capture_full_page_private" (
                ("private_result", str "page.full")
                ∷ ("quality", int (pos percent))
                ∷ ("max_bytes", int (pos 262144))
                ∷ ("max_width", int (pos 10000))
                ∷ ("max_height", int (pos 20000))
                ∷ [])
              ∷ []))
            (dict (("quality", int (pos percent)) ∷ []))) { private_fields = "page.full" ∷ [] })
          null false
    capture ← lift (item_of "page.full" outcome.private)
    captured id g.url capture

  unfoldable pub geometry : (id locator max_items : Value) → Tool Value
  geometry id locator max_items = do
    g ← grant_of world id
    found ← located world locator
    count ← lift (bounded_int 1 500 "max_items must be between 1 and 500" max_items)
    outcome ←
        run_plan world g
          (record (plan "geometry"
            (attached (
              act "extract_ax_geometry" (
                ("locator", found)
                ∷ ("private_result", str "page.geometry")
                ∷ ("max_items", int (pos count))
                ∷ [])
              ∷ []))
            (dict (("locator", found) ∷ ("max_items", int (pos count)) ∷ []))) {
              private_fields = "page.geometry" ∷ [];
            })
          null false
    boxes ← lift (item_of "page.geometry" outcome.private)
    pure (obj (dict (("collaboration_id", id) ∷ ("items", boxes) ∷ [])))

  unfoldable pub hover : (id locator : Value) → Tool Value
  hover id locator = do
    g ← grant_of world id
    found ← located world locator
    outcome ←
        run_plan world g
          (plan "hover" (attached (act "hover_ax" (("locator", found) ∷ []) ∷ []))
            (dict (("locator", found) ∷ [])))
          null false
    record_step "hover" (dict (("locator", found) ∷ []))
    pure (done id)

  unfoldable pub scroll : (id direction distance_px : Value) → Tool Value
  scroll id direction distance_px = do
    g ← grant_of world id
    way ← lift (one_of ("up" ∷ "down" ∷ []) "direction must be up or down" direction)
    distance ← lift (bounded_int 1 10000 "distance_px must be between 1 and 10000" distance_px)
    outcome ←
        run_plan world g
          (plan "scroll"
            (attached (
              act "scroll_viewport"
                (("direction", str way) ∷ ("distance_px", int (pos distance)) ∷ [])
              ∷ []))
            (dict (("direction", str way) ∷ ("distance_px", int (pos distance)) ∷ [])))
          null false
    record_step "scroll" (dict (("direction", str way) ∷ ("distance_px", int (pos distance)) ∷ []))
    pure (
        obj (
          dict (
            ("status", str "ok")
            ∷ ("collaboration_id", id)
            ∷ ("action_count", get_or "action_count" (int (pos 0)) outcome.public)
            ∷ [])))

  unfoldable pub scroll_to : (id locator : Value) → Tool Value
  scroll_to id locator = do
    g ← grant_of world id
    found ← located world locator
    outcome ←
        run_plan world g
          (plan "scroll-to" (attached (act "scroll_ax_into_view" (("locator", found) ∷ []) ∷ []))
            (dict (("locator", found) ∷ [])))
          null false
    record_step "scroll-to" (dict (("locator", found) ∷ []))
    pure (done id)

  unfoldable pub diagnostics : (id duration_ms : Value) → Tool Value
  diagnostics id duration_ms = do
    g ← grant_of world id
    duration ← lift (bounded_int 20 30000 "duration_ms must be between 20 and 30000" duration_ms)
    outcome ←
        run_plan world g
          (record (plan "diagnostics"
            (attached (
              act "start_log_capture" (
                ("private_result", str "diagnostics.logs")
                ∷ ("max_entries", int (pos 100))
                ∷ ("max_text_bytes", int (pos 4096))
                ∷ [])
              ∷ act "start_request_capture" (
                  ("private_result", str "diagnostics.requests")
                  ∷ ("max_entries", int (pos 100))
                  ∷ ("max_url_bytes", int (pos 4096))
                  ∷ [])
              ∷ act "start_console_capture" (
                  ("private_result", str "diagnostics.console")
                  ∷ ("max_entries", int (pos 100))
                  ∷ ("max_arguments", int (pos 10))
                  ∷ ("max_argument_bytes", int (pos 4096))
                  ∷ [])
              ∷ act "wait_duration" (("duration_ms", int (pos duration)) ∷ [])
              ∷ act "capture_performance_private" (
                  ("private_result", str "diagnostics.performance")
                  ∷ ("max_metrics", int (pos 100))
                  ∷ [])
              ∷ act "stop_console_capture" []
              ∷ act "stop_request_capture" []
              ∷ act "stop_log_capture" []
              ∷ []))
            (dict (("duration_ms", int (pos duration)) ∷ []))) {
              private_fields =
                  "diagnostics.logs" ∷ "diagnostics.requests" ∷ "diagnostics.console"
                  ∷ "diagnostics.performance" ∷ [];
              timeout_ms = int (pos (greater 1000 (duration + 5000)));
            })
          null false
    pure
        (obj (spread outcome.private (dict (("status", str "ok") ∷ ("collaboration_id", id) ∷ []))))
