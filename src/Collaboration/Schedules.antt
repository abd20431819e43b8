-- ===== src/Collaboration/Schedules.antt =====
-- collaboration.py: `schedule_snapshot`, `schedule_status`, `schedule_cancel` and `schedule_result`, as
-- one step for each holding of `_schedule_lock`.
pub mod Entries
pub mod Room
pub mod Retained
pub mod Every
pub mod Found
pub mod Left
pub mod Cancelled
pub mod Delivered
use llm_wiki_chrome.Prelude.{
  ℕ, zero, suc, String, Bool, true, false, not, ◌&&◌, Option, none, some, List, [], ◌∷◌, ◌==◌, eqb,
  leb, length, all, if◌then◌else◌, contains,
}
use llm_wiki_chrome.Result.{Result, ok, err, type_error, collaboration_error, ◌>>=◌}
use llm_wiki_chrome.Text.{codes, is_hex}
use llm_wiki_chrome.Json.{Value, Items, null, str, obj, arr, nil, cons, dict}
use llm_wiki_chrome.Grants.Defs.{Grant}
use llm_wiki_chrome.Collaboration.Compile.{bounded_int}

pub data State : Type 0 where
  scheduled running complete failed cancelled : State

pub record Schedule : Type 0 where
  pub schedule_id : String
  pub state : State
  pub result : Option Value

-- The dictionary of schedules in its order, and the ids whose timer thread is between the two holdings of
-- the lock in `execute`.
pub record Scheduler : Type 0 where
  pub schedules : List Schedule
  pub threads : List String

abbrev pub no_schedules : Scheduler
no_schedules = record { schedules = []; threads = [] }

abbrev pub max_active : ℕ
max_active = 4

abbrev pub max_retained : ℕ
max_retained = 32

abbrev pub state_name : State → String
state_name scheduled = "scheduled"
state_name running = "running"
state_name complete = "complete"
state_name failed = "failed"
state_name cancelled = "cancelled"

abbrev pub is_active : State → Bool
is_active scheduled = true
is_active running = true
is_active _ = false

-- What makes room for another schedule: `state in {"cancelled", "failed"}`.
abbrev pub is_evictable : State → Bool
is_evictable failed = true
is_evictable cancelled = true
is_evictable _ = false

-- `self._schedules.get(schedule_id)`
unfoldable pub find : String → List Schedule → Option Schedule
find id [] = none
find id (j ∷ jobs) =
    let rest = find id jobs in elim (j.schedule_id == id) [ true ↦ some j | false ↦ rest ]

-- `del self._schedules[schedule_id]`
unfoldable pub remove : String → List Schedule → List Schedule
remove id [] = []
remove id (j ∷ jobs) =
    let rest = remove id jobs in elim (j.schedule_id == id) [ true ↦ jobs | false ↦ j ∷ rest ]

-- `self._schedules[schedule_id] = job`, in the place that the key has, else at the end; and the change of a
-- job that is there.
unfoldable pub put : Schedule → List Schedule → List Schedule
put new [] = new ∷ []
put new (j ∷ jobs) =
    let rest = put new jobs in
    elim (j.schedule_id == new.schedule_id) [ true ↦ new ∷ jobs | false ↦ j ∷ rest ]

unfoldable pub active : List Schedule → ℕ
active [] = 0
active (j ∷ jobs) =
    let rest = active jobs in elim (is_active j.state) [ true ↦ suc rest | false ↦ rest ]

unfoldable pub first_evictable : List Schedule → Option String
first_evictable [] = none
first_evictable (j ∷ jobs) =
    let rest = first_evictable jobs in
    elim (is_evictable j.state) [ true ↦ some j.schedule_id | false ↦ rest ]

-- The loop that makes room; what it has deleted stays deleted where it raises.
unfoldable pub make_room : (fuel : ℕ) → List Schedule → List Schedule × Result (Unit {0})
make_room zero jobs = (jobs, err type_error)
make_room (suc fuel) jobs = elim (leb max_retained (length jobs)) [
  | false ↦ (jobs, ok tt)
  | true ↦ elim (first_evictable jobs) [
    | none ↦
        (jobs, err (collaboration_error "too many completed scheduled snapshots await retrieval"))
    | some id ↦ make_room fuel (remove id jobs)
  ]
]

abbrev scheduled_reply : String → Value
scheduled_reply id = obj (dict (("status", str "scheduled") ∷ ("schedule_id", str id) ∷ []))

unfoldable pub admit_into :
    String → List Schedule × Result (Unit {0}) → List Schedule × Result Value
admit_into id (jobs, err e) = (jobs, err e)
admit_into id (jobs, ok _) = (
  put (record { schedule_id = id; state = scheduled; result = none }) jobs,
  ok (scheduled_reply id),
)

unfoldable pub admit : String → List Schedule → List Schedule × Result Value
admit id jobs =
    if leb max_active (active jobs)
    then (jobs, err (collaboration_error "too many active scheduled snapshots"))
    else admit_into id (make_room (suc (length jobs)) jobs)

-- What `schedule_snapshot` checks before it takes the lock; `shared` is what `_collaboration` answers.
unfoldable pub check_schedule :
    (shared : Result Grant) (delay_seconds max_items : Value) → Result (Unit {0})
check_schedule shared delay_seconds max_items = do
  g ← shared
  delay ← bounded_int 1 86400 "delay_seconds must be between 1 and 86400" delay_seconds
  count ← bounded_int 1 1500 "max_items must be between 1 and 1500" max_items
  ok tt

abbrev pub replace : Scheduler → List Schedule → Scheduler
replace s jobs = record { schedules = jobs; threads = s.threads }

unfoldable pub schedule_snapshot :
    Scheduler → (checked : Result (Unit {0})) (new_id : String) → Scheduler × Result Value
schedule_snapshot s (err e) new_id = (s, err e)
schedule_snapshot s (ok _) new_id =
    (replace s (admit new_id s.schedules).0, (admit new_id s.schedules).1)

abbrev pub is_schedule_id : String → Bool
is_schedule_id s = eqb (length (codes s)) 32 && all is_hex (codes s)

-- One occurrence less.
unfoldable pub leave : String → List String → List String
leave id [] = []
leave id (x ∷ xs) = let rest = leave id xs in elim (x == id) [ true ↦ xs | false ↦ x ∷ rest ]

abbrev pub with_state : Schedule → State → Schedule
with_state j state = record { schedule_id = j.schedule_id; state = state; result = j.result }

abbrev pub begin_state : Scheduler → String → Schedule → State → Scheduler
begin_state s id j scheduled = record {
  schedules = put (with_state j running) s.schedules;
  threads = id ∷ s.threads;
}
begin_state s id j _ = s

-- The first holding of the lock in `execute`: the thread goes on only with a scheduled job.
unfoldable pub begin_job : Scheduler → String → Option Schedule → Scheduler
begin_job s id none = s
begin_job s id (some j) = begin_state s id j j.state

unfoldable pub begin : Scheduler → String → Scheduler
begin s id = begin_job s id (find id s.schedules)

-- The second one: what `snapshot` returned or raised.
unfoldable pub ended_job : Schedule → Result Value → Schedule
ended_job j (ok v) = record { schedule_id = j.schedule_id; state = complete; result = some v }
ended_job j (err e) = with_state j failed

unfoldable pub end_jobs : List Schedule → Result Value → Option Schedule → List Schedule
end_jobs jobs outcome none = jobs
end_jobs jobs outcome (some j) = put (ended_job j outcome) jobs

unfoldable pub finish : Scheduler → String → Result Value → Scheduler
finish s id outcome =
    if contains s.threads id
    then record {
      schedules = end_jobs s.schedules outcome (find id s.schedules);
      threads = leave id s.threads;
    }
    else s

abbrev pub not_cancellable : Result Value
not_cancellable = err (collaboration_error "the schedule is not cancellable")

abbrev pub cancel_state : Scheduler → Schedule → State → Scheduler × Result Value
cancel_state s j scheduled = (
  replace s (put (with_state j cancelled) s.schedules),
  ok (obj (dict (("status", str "cancelled") ∷ ("schedule_id", str j.schedule_id) ∷ []))),
)
cancel_state s j _ = (s, not_cancellable)

unfoldable pub cancel_job : Scheduler → Option Schedule → Scheduler × Result Value
cancel_job s none = (s, not_cancellable)
cancel_job s (some j) = cancel_state s j j.state

abbrev pub bad_id : Result Value
bad_id = err (collaboration_error "schedule_id is invalid")

unfoldable pub schedule_cancel : Scheduler → Value → Scheduler × Result Value
schedule_cancel s (str id) =
    if is_schedule_id id then cancel_job s (find id s.schedules) else (s, bad_id)
schedule_cancel s _ = (s, bad_id)

abbrev pub value_of : Option Value → Value
value_of none = null
value_of (some v) = v

abbrev pub retrieve_state : Scheduler → Schedule → State → Scheduler × Result Value
retrieve_state s j complete = (
  replace s (remove j.schedule_id s.schedules),
  ok (
      obj (
        dict (
          ("schedule_id", str j.schedule_id)
          ∷ ("state", str "complete")
          ∷ ("result", value_of j.result)
          ∷ []))),
)
retrieve_state s j other = (
  s,
  ok (obj (dict (("schedule_id", str j.schedule_id) ∷ ("state", str (state_name other)) ∷ []))),
)

unfoldable pub retrieve_job : Scheduler → Option Schedule → Scheduler × Result Value
retrieve_job s none = (s, err (collaboration_error "the schedule is unavailable"))
retrieve_job s (some j) = retrieve_state s j j.state

unfoldable pub schedule_result : Scheduler → Value → Scheduler × Result Value
schedule_result s (str id) =
    if is_schedule_id id then retrieve_job s (find id s.schedules) else (s, bad_id)
schedule_result s _ = (s, bad_id)

unfoldable pub schedule_items : List Schedule → Items
schedule_items [] = nil
schedule_items (j ∷ jobs) =
    cons
      (obj (dict (("schedule_id", str j.schedule_id) ∷ ("state", str (state_name j.state)) ∷ [])))
      (schedule_items jobs)

unfoldable pub schedule_status : Scheduler → Value
schedule_status s = obj (dict (("schedules", arr (schedule_items s.schedules)) ∷ []))

-- A request with the answer of `_collaboration` and the id that os.urandom gives; a timer that fires; the end
-- of its snapshot; a cancellation; a retrieval.
pub data Event : Type 0 where
  request : (shared : Result Grant) (delay_seconds max_items : Value) (new_id : String) → Event
  fires : String → Event
  ends : String → Result Value → Event
  cancel retrieve : Value → Event

unfoldable pub step : Scheduler → Event → Scheduler
step s (request shared delay_seconds max_items new_id) =
    (schedule_snapshot s (check_schedule shared delay_seconds max_items) new_id).0
step s (fires id) = begin s id
step s (ends id outcome) = finish s id outcome
step s (cancel id) = (schedule_cancel s id).0
step s (retrieve id) = (schedule_result s id).0

unfoldable pub run : Scheduler → List Event → Scheduler
run s [] = s
run s (e ∷ events) = run (step s e) events
