-- ===== src/Tests/Agent.antt =====
-- The theorems of the controller and of its server, applied.
use llm_wiki_chrome.Prelude.{
  All, ◌⊎◌, false, unique, all, In, inl, inr, subset, contains, any, ◌≡◌, ◌≢◌, refl, true, none,
  some, List, [], ◌∷◌, arith, String,
}
use llm_wiki_chrome.Result.{ok, err, type_error}
use llm_wiki_chrome.Json.{
  is_null, end, Value, Fields, null, str, int, pos, obj, dict, get, is_text, has, keys,
}
use llm_wiki_chrome.Collaboration.Tool.{World}
use llm_wiki_chrome.Text.{is_identifier}
use llm_wiki_chrome.Protocol.Locator.{validate_locator, validate_ax_locator_shape}
use llm_wiki_chrome.Collaboration.Locator.{
  semantic_locator, locator_entries, locator_text, locator_role, locator_ordinal, bounded_text,
  pick,
}
use llm_wiki_chrome.Collaboration.Locator.Sent.{semantic_locator-accepted}
use llm_wiki_chrome.Sets.{unique-Distinct}
use llm_wiki_chrome.Collaboration.Schedules.{
  Schedule, failed, complete, no_schedules, Event, request, fires, ends, cancel, retrieve, run,
  make_room, active, Scheduler, scheduled, schedule_cancel, cancel_job, schedule_result, find,
  is_schedule_id,
}
use llm_wiki_chrome.Collaboration.Schedules.Cancelled.{requested, IsCancelled, cancel-final}
use llm_wiki_chrome.Collaboration.Schedules.Delivered.{
  delivered, completing, schedule_result-delivers,
}
use llm_wiki_chrome.Collaboration.Schedules.Retained.{IsBounded, run-IsBounded}
use llm_wiki_chrome.Collaboration.Schedules.Room.{make_room-enough}
use llm_wiki_chrome.Mcp.Sessions.{IsSession, run-IsSession}
use llm_wiki_chrome.Mcp.Tools.{Controller, call_tool}
use llm_wiki_chrome.Mcp.Serves.{IsKept, IsServed, call_tool-IsServed}
use llm_wiki_chrome.Mcp.Server.{dispatch, rpc_result, Input, line, timer, works}
use llm_wiki_chrome.Mcp.Server
use llm_wiki_chrome.Protocol.Program.{get_or}
use llm_wiki_chrome.Mcp.Answers.{Answers, dispatch-Answers}
use llm_wiki_chrome.Mcp.Calls.{Succeeds, Fails, dispatch-tool_call}
use llm_wiki_chrome.Collaboration.Schedules.Left.{Leaves}
use llm_wiki_chrome.Tests.Data.{runtime, button, write_outcome, small_grant}
use llm_wiki_chrome.Tests.Local.{disk, policy}

-- One tab is shared, and every job succeeds.
abbrev world : World
world = record {
  runtime = runtime;
  listed = ok (small_grant ∷ []);
  answer = λ job. ok write_outcome;
  published = λ n url. ok (some small_grant);
  policy = policy;
  files = disk;
  file_sha256 = λ path. ok "";
  file_size = λ path. ok 0;
  path_text = λ path. "";
  json_text = λ v. "[]";
}

abbrev new_id : String
new_id = "0123456789abcdef0123456789abcdef"

abbrev idle : Controller
idle = record { recording = none; scheduler = no_schedules }

no_schedules-IsBounded : IsBounded no_schedules.schedules
unfolding active
no_schedules-IsBounded = record { few_active = omega arith; few_kept = omega arith; distinct = tt }

idle-IsKept : IsKept idle
idle-IsKept = record { short = tt; bounded = no_schedules-IsBounded }

abbrev click_arguments : Fields
click_arguments =
    dict (("collaboration_id", str small_grant.collaboration_id) ∷ ("locator", button) ∷ [])

call_tool-IsServed_example :
    IsServed world click_arguments (call_tool world new_id "browser_click" click_arguments idle)
call_tool-IsServed_example =
    call_tool-IsServed world new_id "browser_click" click_arguments idle idle-IsKept

-- A snapshot that is scheduled, starts and ends, and one that is cancelled.
abbrev events : List Event
events =
    request (ok small_grant) (int (pos 5)) (int (pos 10)) new_id
    ∷ fires new_id
    ∷ ends new_id (ok (str "snapshot"))
    ∷ request (ok small_grant) (int (pos 5)) (int (pos 10)) "fedcba9876543210fedcba9876543210"
    ∷ cancel (str "fedcba9876543210fedcba9876543210")
    ∷ retrieve (str new_id)
    ∷ []

run-IsBounded_example :
    IsBounded (llm_wiki_chrome.Collaboration.Schedules.run no_schedules events).schedules
run-IsBounded_example = run-IsBounded events

abbrev two_schedules : List Schedule
two_schedules =
    record { schedule_id = "a"; state = failed; result = none }
    ∷ record { schedule_id = "b"; state = complete; result = none }
    ∷ []

make_room-enough_example : (make_room 3 two_schedules).1 ≢ err type_error
make_room-enough_example = make_room-enough 3 two_schedules (omega arith)

abbrev texts : Value → String
texts v = "{}"

abbrev ping : Fields
ping = dict (("jsonrpc", str "2.0") ∷ ("id", int (pos 7)) ∷ ("method", str "ping") ∷ [])

ping_version : is_text "2.0" (get "jsonrpc" ping) ≡ true
unfolding get
ping_version = refl

ping_method : get "method" ping ≡ str "ping"
unfolding get
ping_method = refl

dispatch-Answers_example :
    Answers (get "id" ping) idle (dispatch world texts texts null new_id (obj ping) idle)
dispatch-Answers_example =
    dispatch-Answers world texts texts null new_id ping "ping" idle ping_version ping_method

-- A request to call a tool.
abbrev call_request : (id : Value) → (name : String) → (arguments : Fields) → Fields
call_request id name arguments = dict (
    ("jsonrpc", str "2.0")
    ∷ ("id", id)
    ∷ ("method", str "tools/call")
    ∷ ("params", obj (dict (("name", str name) ∷ ("arguments", obj arguments) ∷ [])))
    ∷ [])

abbrev script_request : Fields
script_request = call_request (int (pos 7)) "browser_script" click_arguments

script_version : is_text "2.0" (get "jsonrpc" script_request) ≡ true
unfolding get
script_version = refl

script_method : get "method" script_request ≡ str "tools/call"
unfolding get
script_method = refl

script_id : is_null (get "id" script_request) ≡ false
unfolding get
script_id = refl

abbrev script_parameters : Fields
script_parameters = dict (("name", str "browser_script") ∷ ("arguments", obj click_arguments) ∷ [])

script_params : get "params" script_request ≡ obj script_parameters
unfolding get
script_params = refl

script_name : get "name" script_parameters ≡ str "browser_script"
unfolding get
script_name = refl

dispatch-tool_call_example :
    (w : Fields) × ((dispatch world texts texts null new_id (obj script_request) idle).response
      ≡ some (rpc_result (get "id" script_request) (obj w)))
    × (Succeeds world texts texts null new_id "browser_script"
          (get_or "arguments" (obj end) script_parameters)
          idle
          w
        ⊎ Fails world texts texts null new_id "browser_script"
            (get_or "arguments" (obj end) script_parameters)
            idle
            w)
dispatch-tool_call_example =
    dispatch-tool_call world texts texts null new_id "browser_script" script_request
      script_parameters idle script_version script_method script_id script_params script_name

-- The tab is not shared any more.
abbrev later_world : World
later_world = record world { listed = ok [] }

abbrev inputs : List Input
inputs =
    line world new_id none
    ∷ line world new_id (some (obj ping))
    ∷ line world new_id (some (obj (call_request (int (pos 8)) "browser_click" click_arguments)))
    ∷ timer new_id
    ∷ works later_world new_id (str small_grant.collaboration_id) (int (pos 10))
    ∷ []

run-IsSession_example :
    IsSession inputs (llm_wiki_chrome.Mcp.Server.run texts texts null inputs idle)
run-IsSession_example = run-IsSession texts texts null inputs idle idle-IsKept

abbrev inside_list : Fields
inside_list =
    dict (("name_contains", str "Save") ∷ ("within", button) ∷ ("ordinal", int (pos 0)) ∷ [])

inside_list_sent : semantic_locator runtime 3 (obj inside_list) ≡ ok (obj inside_list)
unfolding semantic_locator locator_entries locator_text locator_role locator_ordinal bounded_text
    pick has get keys subset contains any is_identifier
inside_list_sent = refl

semantic_locator-accepted_example :
    (validate_locator runtime 3 (obj inside_list) ≡ ok tt)
    × (validate_ax_locator_shape 3 (obj inside_list) ≡ ok tt)
semantic_locator-accepted_example =
    semantic_locator-accepted runtime 3 (obj inside_list) (obj inside_list) inside_list_sent

abbrev waiting : Scheduler
waiting = record {
  schedules = record { schedule_id = new_id; state = scheduled; result = none } ∷ two_schedules;
  threads = "b" ∷ [];
}

all_differ : unique (new_id ∷ "a" ∷ "b" ∷ []) ≡ true
unfolding unique contains
all_differ = refl

waiting-IsBounded : IsBounded waiting.schedules
unfolding active
waiting-IsBounded = record {
  few_active = omega arith;
  few_kept = omega arith;
  distinct = unique-Distinct (new_id ∷ "a" ∷ "b" ∷ []) all_differ;
}

abbrev told : Value
told = obj (dict (("status", str "cancelled") ∷ ("schedule_id", str new_id) ∷ []))

cancelled_in_time : (schedule_cancel waiting (str new_id)).1 ≡ ok told
unfolding schedule_cancel cancel_job find all
cancelled_in_time = refl

abbrev late : List Event
late = fires new_id ∷ ends new_id (ok (str "snapshot")) ∷ retrieve (str new_id) ∷ []

late_requests : ¬ (In new_id (requested late))
unfolding requested
late_requests m = m

not_at_work : ¬ (In new_id waiting.threads)
not_at_work m = elim m [ inl q ↦ cc | inr k ↦ k ]

cancel-final_example :
    IsCancelled new_id
      (llm_wiki_chrome.Collaboration.Schedules.run (schedule_cancel waiting (str new_id)).0 late)
cancel-final_example =
    cancel-final new_id waiting told late waiting-IsBounded not_at_work cancelled_in_time
      late_requests

new_id_valid : is_schedule_id new_id ≡ true
unfolding all
new_id_valid = refl

waiting_first :
    find new_id waiting.schedules
    ≡ some (record { schedule_id = new_id; state = scheduled; result = none })
unfolding find
waiting_first = refl

-- Other schedules are requested while the snapshot waits and while its result waits.
abbrev before : List Event
before = retrieve (str new_id) ∷ request (ok small_grant) (int (pos 5)) (int (pos 10)) "c" ∷ []

abbrev after : List Event
after = cancel (str new_id) ∷ fires "c" ∷ []

other_id : "c" ≢ new_id
other_id q = cc

before-Leaves : All (Leaves new_id scheduled) before
before-Leaves = (inr (λ q. cc), (other_id, tt))

after-Leaves : All (Leaves new_id complete) after
after-Leaves = (inr (λ q. cc), (other_id, tt))

schedule_result-delivers_example :
    ((schedule_result
        (llm_wiki_chrome.Collaboration.Schedules.run waiting
          (completing new_id (str "snapshot") before [] after))
        (str new_id)).1
      ≡ ok (delivered new_id (str "snapshot")))
    × (find new_id
          (schedule_result
            (llm_wiki_chrome.Collaboration.Schedules.run waiting
              (completing new_id (str "snapshot") before [] after))
            (str new_id)).0.schedules
        ≡ none)
schedule_result-delivers_example =
    schedule_result-delivers waiting new_id
      (record { schedule_id = new_id; state = scheduled; result = none }) (str "snapshot") before []
      after waiting-IsBounded new_id_valid waiting_first refl before-Leaves tt after-Leaves
