-- ===== src/Mcp/Tools.antt =====
-- mcp_server.py: `_require_arguments` and the chain of tools of `_tool_result`, as tables with the allowed
-- and the required arguments of each tool.
use llm_wiki_chrome.Prelude.{
  String, true, false, not, ◌||◌, Option, List, [], ◌∷◌, ◌++◌, ◌==◌, subset, if◌then◌else◌,
}
use llm_wiki_chrome.Result.{Result, ok, err, value_error}
use llm_wiki_chrome.Json.{Value, Fields, bool, int, pos, get, keys}
use llm_wiki_chrome.Protocol.Program.{get_or}
use llm_wiki_chrome.Collaboration.Tool.{Job, Recording, World, Tool}
use llm_wiki_chrome.Collaboration.Compile.{granted}
use llm_wiki_chrome.Collaboration.Pages.{focus, open_url, history, close_tab, navigate, reload}
use llm_wiki_chrome.Collaboration.Reading.{
  snapshot, wait, screenshot, region_screenshot, full_page_screenshot, geometry, hover, scroll,
  scroll_to, diagnostics,
}
use llm_wiki_chrome.Collaboration.Acting.{
  click, drag, select_option, type_text, key_chord, dialog, upload, download, credential_fill,
}
use llm_wiki_chrome.Collaboration.Recordings.{
  recording_start, recording_status, recording_stop, tabs, status,
}
use llm_wiki_chrome.Collaboration.Schedules.{
  Scheduler, check_schedule, schedule_snapshot, schedule_status, schedule_cancel, schedule_result,
}

-- What the controller keeps.
pub record Controller : Type 0 where
  pub recording : Option Recording
  pub scheduler : Scheduler

pub record Reply : Type 0 where
  pub jobs : List Job
  pub controller : Controller
  pub result : Result Value

-- A tool that uses the client and the recording.
abbrev pub on_page : Tool Value → Controller → Reply
on_page m c =
    let d = m c.recording in
    record {
      jobs = d.jobs;
      controller = record { recording = d.recording; scheduler = c.scheduler };
      result = d.result;
    }

-- A tool that uses the schedules.
abbrev pub on_schedules : (Scheduler → Scheduler × Result Value) → Controller → Reply
on_schedules m c =
    let d = m c.scheduler in
    record {
      jobs = [];
      controller = record { recording = c.recording; scheduler = d.0 };
      result = d.1;
    }

pub record Entry : Type 0 where
  pub name : String
  pub allowed : List String
  pub required : List String
  pub body : Fields → Controller → Reply

abbrev pub entry : String → (allowed required : List String) → (Fields → Controller → Reply) → Entry
entry name allowed required body = record {
  name = name;
  allowed = allowed;
  required = required;
  body = body;
}

module _ (world : World) (new_id : String) where
  abbrev pub page_tools : List Entry
  page_tools =
      entry "browser_status" [] [] (λ a. on_page (status world))
      ∷ entry "browser_tabs" [] [] (λ a. on_page (tabs world))
      ∷ entry "browser_focus" ("collaboration_id" ∷ []) ("collaboration_id" ∷ [])
          (λ a. on_page (focus world (get "collaboration_id" a)))
      ∷ entry "browser_open" ("collaboration_id" ∷ "url" ∷ []) ("collaboration_id" ∷ "url" ∷ [])
          (λ a. on_page (open_url world (get "collaboration_id" a) (get "url" a)))
      ∷ entry "browser_history" ("collaboration_id" ∷ "direction" ∷ "expected_url" ∷ [])
          ("collaboration_id" ∷ "direction" ∷ "expected_url" ∷ [])
          (λ a.
            on_page
              (history world (get "collaboration_id" a) (get "direction" a) (get "expected_url" a)))
      ∷ entry "browser_close" ("collaboration_id" ∷ []) ("collaboration_id" ∷ [])
          (λ a. on_page (close_tab world (get "collaboration_id" a)))
      ∷ entry "browser_snapshot" ("collaboration_id" ∷ "max_items" ∷ []) ("collaboration_id" ∷ [])
          (λ a.
            on_page
              (snapshot world (get "collaboration_id" a) (get_or "max_items" (int (pos 400)) a)))
      ∷ entry "browser_screenshot" ("collaboration_id" ∷ "quality" ∷ []) ("collaboration_id" ∷ [])
          (λ a. on_page (
            screenshot world (get "collaboration_id" a) (get_or "quality" (int (pos 65)) a)
              (int (pos 262144))))
      ∷ entry "browser_region_screenshot"
          ("collaboration_id" ∷ "x" ∷ "y" ∷ "width" ∷ "height" ∷ "quality" ∷ [])
          ("collaboration_id" ∷ "x" ∷ "y" ∷ "width" ∷ "height" ∷ [])
          (λ a. on_page (
            region_screenshot world (get "collaboration_id" a) (get "x" a) (get "y" a)
              (get "width" a) (get "height" a) (get_or "quality" (int (pos 65)) a)))
      ∷ entry "browser_full_page_screenshot" ("collaboration_id" ∷ "quality" ∷ [])
          ("collaboration_id" ∷ [])
          (λ a. on_page (
            full_page_screenshot world (get "collaboration_id" a)
              (get_or "quality" (int (pos 60)) a)))
      ∷ entry "browser_geometry" ("collaboration_id" ∷ "locator" ∷ "max_items" ∷ [])
          ("collaboration_id" ∷ "locator" ∷ [])
          (λ a. on_page (
            geometry world (get "collaboration_id" a) (get "locator" a)
              (get_or "max_items" (int (pos 100)) a)))
      ∷ entry "browser_wait" ("collaboration_id" ∷ "locator" ∷ "timeout_ms" ∷ [])
          ("collaboration_id" ∷ "locator" ∷ [])
          (λ a. on_page (
            wait world (get "collaboration_id" a) (get "locator" a)
              (get_or "timeout_ms" (int (pos 10000)) a)))
      ∷ entry "browser_navigate" ("collaboration_id" ∷ "url" ∷ "ignore_cache" ∷ [])
          ("collaboration_id" ∷ "url" ∷ [])
          (λ a. on_page (
            navigate world (get "collaboration_id" a) (get "url" a)
              (get_or "ignore_cache" (bool false) a)))
      ∷ entry "browser_reload" ("collaboration_id" ∷ "ignore_cache" ∷ []) ("collaboration_id" ∷ [])
          (λ a.
            on_page
              (reload world (get "collaboration_id" a) (get_or "ignore_cache" (bool false) a)))
      ∷ []

  abbrev pub action_tools : List Entry
  action_tools =
      entry "browser_click" ("collaboration_id" ∷ "locator" ∷ [])
        ("collaboration_id" ∷ "locator" ∷ [])
        (λ a. on_page (click world (get "collaboration_id" a) (get "locator" a)))
      ∷ entry "browser_hover" ("collaboration_id" ∷ "locator" ∷ [])
          ("collaboration_id" ∷ "locator" ∷ [])
          (λ a. on_page (hover world (get "collaboration_id" a) (get "locator" a)))
      ∷ entry "browser_select" ("collaboration_id" ∷ "locator" ∷ "option_locator" ∷ [])
          ("collaboration_id" ∷ "locator" ∷ "option_locator" ∷ [])
          (λ a. on_page (
            select_option world (get "collaboration_id" a) (get "locator" a)
              (get "option_locator" a)))
      ∷ entry "browser_drag" ("collaboration_id" ∷ "locator" ∷ "destination" ∷ "steps" ∷ [])
          ("collaboration_id" ∷ "locator" ∷ "destination" ∷ [])
          (λ a. on_page (
            drag world (get "collaboration_id" a) (get "locator" a) (get "destination" a)
              (get_or "steps" (int (pos 8)) a)))
      ∷ entry "browser_type" ("collaboration_id" ∷ "locator" ∷ "text" ∷ "replace_all" ∷ [])
          ("collaboration_id" ∷ "locator" ∷ "text" ∷ [])
          (λ a. on_page (
            type_text world (get "collaboration_id" a) (get "locator" a) (get "text" a)
              (get_or "replace_all" (bool true) a)))
      ∷ entry "browser_key" ("collaboration_id" ∷ "keys" ∷ []) ("collaboration_id" ∷ "keys" ∷ [])
          (λ a. on_page (key_chord world (get "collaboration_id" a) (get "keys" a)))
      ∷ entry "browser_scroll" ("collaboration_id" ∷ "direction" ∷ "distance_px" ∷ [])
          ("collaboration_id" ∷ "direction" ∷ [])
          (λ a. on_page (
            scroll world (get "collaboration_id" a) (get "direction" a)
              (get_or "distance_px" (int (pos 700)) a)))
      ∷ entry "browser_scroll_to" ("collaboration_id" ∷ "locator" ∷ [])
          ("collaboration_id" ∷ "locator" ∷ [])
          (λ a. on_page (scroll_to world (get "collaboration_id" a) (get "locator" a)))
      ∷ entry "browser_dialog" ("collaboration_id" ∷ "accept" ∷ "prompt_text" ∷ [])
          ("collaboration_id" ∷ "accept" ∷ [])
          (λ a.
            on_page
              (dialog world (get "collaboration_id" a) (get "accept" a) (get "prompt_text" a)))
      ∷ entry "browser_upload" ("collaboration_id" ∷ "locator" ∷ "paths" ∷ [])
          ("collaboration_id" ∷ "locator" ∷ "paths" ∷ [])
          (λ a. on_page (upload world (get "collaboration_id" a) (get "locator" a) (get "paths" a)))
      ∷ entry "browser_download" ("collaboration_id" ∷ "locator" ∷ "timeout_ms" ∷ [])
          ("collaboration_id" ∷ "locator" ∷ [])
          (λ a. on_page (
            download world (get "collaboration_id" a) (get "locator" a)
              (get_or "timeout_ms" (int (pos 30000)) a)))
      ∷ entry "browser_diagnostics" ("collaboration_id" ∷ "duration_ms" ∷ [])
          ("collaboration_id" ∷ [])
          (λ a. on_page (
            diagnostics world (get "collaboration_id" a) (get_or "duration_ms" (int (pos 1000)) a)))
      ∷ entry "browser_credential_fill" ("collaboration_id" ∷ "locator" ∷ "broker" ∷ [])
          ("collaboration_id" ∷ "locator" ∷ "broker" ∷ [])
          (λ a.
            on_page
              (credential_fill world (get "collaboration_id" a) (get "locator" a) (get "broker" a)))
      ∷ []

  -- The recordings and the schedules; `new_id` is what os.urandom gives.
  abbrev pub keeping_tools : List Entry
  keeping_tools =
      entry "browser_record_start" [] [] (λ a. on_page (recording_start new_id))
      ∷ entry "browser_record_status" [] [] (λ a. on_page recording_status)
      ∷ entry "browser_record_stop" [] [] (λ a. on_page (recording_stop world))
      ∷ entry "browser_schedule_snapshot" ("collaboration_id" ∷ "delay_seconds" ∷ "max_items" ∷ [])
          ("collaboration_id" ∷ "delay_seconds" ∷ [])
          (λ a. on_schedules (λ s.
            schedule_snapshot s
              (check_schedule (granted world (get "collaboration_id" a)) (get "delay_seconds" a)
                (get_or "max_items" (int (pos 400)) a))
              new_id))
      ∷ entry "browser_schedule_status" [] [] (λ a. on_schedules (λ s. (s, ok (schedule_status s))))
      ∷ entry "browser_schedule_cancel" ("schedule_id" ∷ []) ("schedule_id" ∷ [])
          (λ a. on_schedules (λ s. schedule_cancel s (get "schedule_id" a)))
      ∷ entry "browser_schedule_result" ("schedule_id" ∷ []) ("schedule_id" ∷ [])
          (λ a. on_schedules (λ s. schedule_result s (get "schedule_id" a)))
      ∷ []

  abbrev pub refused : Controller → Reply
  refused c = record { jobs = []; controller = c; result = err value_error }

  -- `_require_arguments`, and the tool
  unfoldable pub call_entry : Entry → Fields → Controller → Reply
  call_entry e a c =
      if not (subset (keys a) e.allowed) || not (subset e.required (keys a))
      then refused c
      else e.body a c

  unfoldable pub call_in : List Entry → String → Fields → Controller → Reply
  call_in [] name a c = refused c
  call_in (e ∷ entries) name a c =
      let rest = call_in entries name a c in
      elim (e.name == name) [ true ↦ call_entry e a c | false ↦ rest ]

  unfoldable pub call_tool : String → Fields → Controller → Reply
  call_tool name a c = call_in (page_tools ++ (action_tools ++ keeping_tools)) name a c
