-- ===== src/Mcp/Serves.antt =====
-- What a call of a tool gives to the client and keeps, whatever its name and its arguments are.
use llm_wiki_chrome.Prelude.{
  ◌≤◌, String, inl, inr, Bool, true, false, not, ◌||◌, ◌==◌, List, [], ◌∷◌, ◌++◌, arith, All,
  length, subset, Bool-cases,
}
use llm_wiki_chrome.Result.{Result, ok}
use llm_wiki_chrome.Json.{Value, Fields, bool, int, pos, get, keys}
use llm_wiki_chrome.Protocol.Program.{get_or}
use llm_wiki_chrome.Collaboration.Tool.{World, Tool}
use llm_wiki_chrome.Collaboration.Compile.{granted}
use llm_wiki_chrome.Collaboration.Pages.{focus, open_url, history, close_tab, navigate, reload}
use llm_wiki_chrome.Collaboration.Reading.{
  snapshot, wait, screenshot, region_screenshot, full_page_screenshot, geometry, hover, scroll,
  scroll_to, diagnostics,
}
use llm_wiki_chrome.Collaboration.Acting.{
  click, drag, select_option, type_text, key_chord, dialog, upload, download, credential_fill,
}
use llm_wiki_chrome.Collaboration.Recordings.{
  recording_start, recording_status, recording_stop, tabs, status,
}
use llm_wiki_chrome.Collaboration.Schedules.{
  Scheduler, check_schedule, schedule_snapshot, schedule_status, schedule_cancel, schedule_result,
}
use llm_wiki_chrome.Collaboration.Schedules.Retained.{
  IsBounded, snapshot-IsBounded, cancel-IsBounded, retrieve-IsBounded,
}
use llm_wiki_chrome.Collaboration.Runs.{IsShort, All-append}
use llm_wiki_chrome.Collaboration.Bound.{IsBound}
use llm_wiki_chrome.Collaboration.Bounded.{Sends}
use llm_wiki_chrome.Collaboration.Bounded.Pages.{
  focus-Sends, open_url-Sends, history-Sends, close_tab-Sends, navigate-Sends, reload-Sends,
}
use llm_wiki_chrome.Collaboration.Bounded.Reading.{
  snapshot-Sends, wait-Sends, screenshot-Sends, region_screenshot-Sends, full_page_screenshot-Sends,
  geometry-Sends, hover-Sends, scroll-Sends, scroll_to-Sends, diagnostics-Sends,
}
use llm_wiki_chrome.Collaboration.Bounded.Acting.{
  click-Sends, drag-Sends, select_option-Sends, type_text-Sends, key_chord-Sends, dialog-Sends,
  upload-Sends, download-Sends, credential_fill-Sends,
}
use llm_wiki_chrome.Collaboration.Bounded.Recordings.{
  recording_start-Sends, recording_status-Sends, recording_stop-Sends, tabs-Sends, status-Sends,
}
use llm_wiki_chrome.Mcp.Tools.{
  Controller, Reply, on_page, on_schedules, Entry, page_tools, action_tools, keeping_tools, refused,
  call_entry, call_in, call_tool,
}

infixr 3 ◌▹◌
abbrev ◌▹◌ : {A B : Type 0} → A → B → A × B
a ▹ b = (a, b)

-- What holds of the controller between two calls.
pub record IsKept (c : Controller) : Type 0 where
  pub short : IsShort c.recording
  pub bounded : IsBounded c.scheduler.schedules

-- At most one job, which is bound to the shared tab that the arguments name, and a controller in its bounds.
pub record IsServed (world : World) (a : Fields) (reply : Reply) : Type 0 where
  pub bound : All (IsBound world (get "collaboration_id" a)) reply.jobs
  pub few : length reply.jobs ≤ 1
  pub kept : IsKept reply.controller

module _ (world : World) where
  abbrev Serves : Entry → Type 0
  Serves e = (a : Fields) (c : Controller) → IsKept c → IsServed world a (e.body a c)

  page-Serves :
      (m : Fields → Tool Value)
      → ((a : Fields) → Sends world (get "collaboration_id" a) (m a))
      → (a : Fields) (c : Controller) → IsKept c
      → IsServed world a (on_page (m a) c)
  page-Serves m sends a c k = record {
    bound = (sends a).good c.recording;
    few = (sends a).few c.recording;
    kept = record { short = (sends a).keeps c.recording k.short; bounded = k.bounded };
  }

  schedules-Serves :
      (m : Fields → Scheduler → Scheduler × Result Value)
      → ((a : Fields) (s : Scheduler) → IsBounded s.schedules → IsBounded (m a s).0.schedules)
      → (a : Fields) (c : Controller) → IsKept c
      → IsServed world a (on_schedules (m a) c)
  schedules-Serves m keeps a c k = record {
    bound = tt;
    few = omega arith;
    kept = record { short = k.short; bounded = keeps a c.scheduler k.bounded };
  }

module _ (world : World) (new_id : String) where
  page_tools-Serve : All (Serves world) (page_tools world new_id)
  page_tools-Serve =
      page-Serves world (λ a. status world) (λ a. status-Sends world (get "collaboration_id" a))
      ▹ page-Serves world (λ a. tabs world) (λ a. tabs-Sends world (get "collaboration_id" a))
      ▹ page-Serves world (λ a. focus world (get "collaboration_id" a))
          (λ a. focus-Sends world (get "collaboration_id" a))
      ▹ page-Serves world (λ a. open_url world (get "collaboration_id" a) (get "url" a))
          (λ a. open_url-Sends world (get "collaboration_id" a) (get "url" a))
      ▹ page-Serves world
          (λ a. history world (get "collaboration_id" a) (get "direction" a) (get "expected_url" a))
          (λ a.
            history-Sends world (get "collaboration_id" a) (get "direction" a)
              (get "expected_url" a))
      ▹ page-Serves world (λ a. close_tab world (get "collaboration_id" a))
          (λ a. close_tab-Sends world (get "collaboration_id" a))
      ▹ page-Serves world
          (λ a. snapshot world (get "collaboration_id" a) (get_or "max_items" (int (pos 400)) a))
          (λ a.
            snapshot-Sends world (get "collaboration_id" a) (get_or "max_items" (int (pos 400)) a))
      ▹ page-Serves world
          (λ a.
            screenshot world (get "collaboration_id" a) (get_or "quality" (int (pos 65)) a)
              (int (pos 262144)))
          (λ a.
            screenshot-Sends world (get "collaboration_id" a) (get_or "quality" (int (pos 65)) a)
              (int (pos 262144)))
      ▹ page-Serves world
          (λ a.
            region_screenshot world (get "collaboration_id" a) (get "x" a) (get "y" a)
              (get "width" a) (get "height" a) (get_or "quality" (int (pos 65)) a))
          (λ a.
            region_screenshot-Sends world (get "collaboration_id" a) (get "x" a) (get "y" a)
              (get "width" a) (get "height" a) (get_or "quality" (int (pos 65)) a))
      ▹ page-Serves world
          (λ a.
            full_page_screenshot world (get "collaboration_id" a)
              (get_or "quality" (int (pos 60)) a))
          (λ a.
            full_page_screenshot-Sends world (get "collaboration_id" a)
              (get_or "quality" (int (pos 60)) a))
      ▹ page-Serves world
          (λ a.
            geometry world (get "collaboration_id" a) (get "locator" a)
              (get_or "max_items" (int (pos 100)) a))
          (λ a.
            geometry-Sends world (get "collaboration_id" a) (get "locator" a)
              (get_or "max_items" (int (pos 100)) a))
      ▹ page-Serves world
          (λ a.
            wait world (get "collaboration_id" a) (get "locator" a)
              (get_or "timeout_ms" (int (pos 10000)) a))
          (λ a.
            wait-Sends world (get "collaboration_id" a) (get "locator" a)
              (get_or "timeout_ms" (int (pos 10000)) a))
      ▹ page-Serves world
          (λ a.
            navigate world (get "collaboration_id" a) (get "url" a)
              (get_or "ignore_cache" (bool false) a))
          (λ a.
            navigate-Sends world (get "collaboration_id" a) (get "url" a)
              (get_or "ignore_cache" (bool false) a))
      ▹ page-Serves world
          (λ a. reload world (get "collaboration_id" a) (get_or "ignore_cache" (bool false) a))
          (λ a.
            reload-Sends world (get "collaboration_id" a) (get_or "ignore_cache" (bool false) a))
      ▹ tt

  action_tools-Serve : All (Serves world) (action_tools world new_id)
  action_tools-Serve =
      page-Serves world (λ a. click world (get "collaboration_id" a) (get "locator" a))
        (λ a. click-Sends world (get "collaboration_id" a) (get "locator" a))
      ▹ page-Serves world (λ a. hover world (get "collaboration_id" a) (get "locator" a))
          (λ a. hover-Sends world (get "collaboration_id" a) (get "locator" a))
      ▹ page-Serves world
          (λ a.
            select_option world (get "collaboration_id" a) (get "locator" a)
              (get "option_locator" a))
          (λ a.
            select_option-Sends world (get "collaboration_id" a) (get "locator" a)
              (get "option_locator" a))
      ▹ page-Serves world
          (λ a.
            drag world (get "collaboration_id" a) (get "locator" a) (get "destination" a)
              (get_or "steps" (int (pos 8)) a))
          (λ a.
            drag-Sends world (get "collaboration_id" a) (get "locator" a) (get "destination" a)
              (get_or "steps" (int (pos 8)) a))
      ▹ page-Serves world
          (λ a.
            type_text world (get "collaboration_id" a) (get "locator" a) (get "text" a)
              (get_or "replace_all" (bool true) a))
          (λ a.
            type_text-Sends world (get "collaboration_id" a) (get "locator" a) (get "text" a)
              (get_or "replace_all" (bool true) a))
      ▹ page-Serves world (λ a. key_chord world (get "collaboration_id" a) (get "keys" a))
          (λ a. key_chord-Sends world (get "collaboration_id" a) (get "keys" a))
      ▹ page-Serves world
          (λ a.
            scroll world (get "collaboration_id" a) (get "direction" a)
              (get_or "distance_px" (int (pos 700)) a))
          (λ a.
            scroll-Sends world (get "collaboration_id" a) (get "direction" a)
              (get_or "distance_px" (int (pos 700)) a))
      ▹ page-Serves world (λ a. scroll_to world (get "collaboration_id" a) (get "locator" a))
          (λ a. scroll_to-Sends world (get "collaboration_id" a) (get "locator" a))
      ▹ page-Serves world
          (λ a. dialog world (get "collaboration_id" a) (get "accept" a) (get "prompt_text" a))
          (λ a.
            dialog-Sends world (get "collaboration_id" a) (get "accept" a) (get "prompt_text" a))
      ▹ page-Serves world
          (λ a. upload world (get "collaboration_id" a) (get "locator" a) (get "paths" a))
          (λ a. upload-Sends world (get "collaboration_id" a) (get "locator" a) (get "paths" a))
      ▹ page-Serves world
          (λ a.
            download world (get "collaboration_id" a) (get "locator" a)
              (get_or "timeout_ms" (int (pos 30000)) a))
          (λ a.
            download-Sends world (get "collaboration_id" a) (get "locator" a)
              (get_or "timeout_ms" (int (pos 30000)) a))
      ▹ page-Serves world
          (λ a.
            diagnostics world (get "collaboration_id" a) (get_or "duration_ms" (int (pos 1000)) a))
          (λ a.
            diagnostics-Sends world (get "collaboration_id" a)
              (get_or "duration_ms" (int (pos 1000)) a))
      ▹ page-Serves world
          (λ a. credential_fill world (get "collaboration_id" a) (get "locator" a) (get "broker" a))
          (λ a.
            credential_fill-Sends world (get "collaboration_id" a) (get "locator" a)
              (get "broker" a))
      ▹ tt

  keeping_tools-Serve : All (Serves world) (keeping_tools world new_id)
  keeping_tools-Serve =
      page-Serves world (λ a. recording_start new_id)
        (λ a. recording_start-Sends world (get "collaboration_id" a) new_id)
      ▹ page-Serves world (λ a. recording_status)
          (λ a. recording_status-Sends world (get "collaboration_id" a))
      ▹ page-Serves world (λ a. recording_stop world)
          (λ a. recording_stop-Sends world (get "collaboration_id" a))
      ▹ schedules-Serves world
          (λ a s.
            schedule_snapshot s
              (check_schedule (granted world (get "collaboration_id" a)) (get "delay_seconds" a)
                (get_or "max_items" (int (pos 400)) a))
              new_id)
          (λ a s b. snapshot-IsBounded s _ new_id b)
      ▹ schedules-Serves world (λ a s. (s, ok (schedule_status s))) (λ a s b. b)
      ▹ schedules-Serves world (λ a s. schedule_cancel s (get "schedule_id" a))
          (λ a s b. cancel-IsBounded s _ b)
      ▹ schedules-Serves world (λ a s. schedule_result s (get "schedule_id" a))
          (λ a s b. retrieve-IsBounded s _ b)
      ▹ tt

  refused-IsServed :
      (a : Fields) (c : Controller) → IsKept c → IsServed world a (refused world new_id c)
  refused-IsServed a c k = record { bound = tt; few = omega arith; kept = k }

  call_entry-IsServed :
      (e : Entry) (a : Fields) (c : Controller)
      → Serves world e
      → IsKept c
      → IsServed world a (call_entry world new_id e a c)
  unfolding call_entry
  call_entry-IsServed e a c serves k =
      elim (Bool-cases (not (subset (keys a) e.allowed) || not (subset e.required (keys a)))) [
        | inl t ↦ rw t (refused-IsServed a c k)
        | inr t ↦ rw t (serves a c k)
      ]

  call_in-IsServed :
      (entries : List Entry) (name : String) (a : Fields) (c : Controller)
      → All (Serves world) entries
      → IsKept c
      → IsServed world a (call_in world new_id entries name a c)
  unfolding call_in
  call_in-IsServed [] name a c serve k = refused-IsServed a c k
  call_in-IsServed (e ∷ entries) name a c serve k =
      split (e.name == name) (call_entry-IsServed e a c serve.0 k)
        (call_in-IsServed entries name a c serve.1 k)
    where
      split :
          (b : Bool)
          → IsServed world a (call_entry world new_id e a c)
          → IsServed world a (call_in world new_id entries name a c)
          → IsServed world a (elim b [
            | true ↦ call_entry world new_id e a c
            | false ↦ call_in world new_id entries name a c
          ])
      split true h k = h
      split false h k = k

  -- A call of a tool, whatever its name and its arguments are, gives the client at most one job; its program is
  -- accepted by the validator, its target is exactly the shared tab that the arguments name, its driver is the
  -- agent's own, and it has the authorization callback exactly if it is a mutation. Where the recording has at
  -- most two hundred steps and the schedules are in their bounds, they are so behind the call.
  pub call_tool-IsServed :
      (name : String) (a : Fields) (c : Controller)
      → IsKept c
      → IsServed world a (call_tool world new_id name a c)
  unfolding call_tool
  call_tool-IsServed name a c kept =
      call_in-IsServed
        (page_tools world new_id ++ (action_tools world new_id ++ keeping_tools world new_id)) name
        a c
        (All-append (Serves world) (page_tools world new_id)
          (action_tools world new_id ++ keeping_tools world new_id) page_tools-Serve
          (All-append (Serves world) (action_tools world new_id) (keeping_tools world new_id)
            action_tools-Serve keeping_tools-Serve))
        kept
