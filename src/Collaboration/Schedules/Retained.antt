-- ===== src/Collaboration/Schedules/Retained.antt =====
-- How many schedules there are, and how many are active.
use mathlib.Core.Path.{subst}
use llm_wiki_chrome.Prelude.{
  suc, ◌≤◌, ◌<◌, String, ◌≡◌, refl, sym, inl, inr, Option, none, some, List, [], ◌∷◌, arith, length,
  Distinct, Bool-cases, leb, contains,
}
use llm_wiki_chrome.Result.{Result, ok, err}
use llm_wiki_chrome.Json.{Value, str}
use llm_wiki_chrome.Collaboration.Schedules.{
  Schedule, State, scheduled, running, complete, failed, cancelled, Scheduler, no_schedules,
  max_active, max_retained, find, remove, put, active, make_room, admit_into, admit, check_schedule,
  schedule_snapshot, with_state, begin_state, cancel_state, retrieve_state, begin_job, begin,
  ended_job, end_jobs, finish, cancel_job, schedule_cancel, is_schedule_id, retrieve_job,
  schedule_result, Event, request, fires, ends, cancel, retrieve, step, run,
}
use llm_wiki_chrome.Collaboration.Schedules.Room.{MadeRoom, make_room-MadeRoom}
use llm_wiki_chrome.Collaboration.Schedules.Entries.{
  ids, weight, find-id, remove-active, remove-le, remove-Distinct, put-length, put-active,
  put-length-le, put-active-le, put-Distinct,
}

-- At most four schedules are active, at most thirty-two are kept, and no two have the same id.
pub record IsBounded (jobs : List Schedule) : Type 0 where
  pub few_active : active jobs ≤ max_active
  pub few_kept : length jobs ≤ max_retained
  pub distinct : Distinct (ids jobs)

admit_into-IsBounded :
    (id : String) (jobs left : List Schedule) (r : Result (Unit {0}))
    → IsBounded jobs
    → active jobs < max_active
    → MadeRoom jobs left r
    → IsBounded (admit_into id (left, r)).0
unfolding admit_into
admit_into-IsBounded id jobs left (ok u) b few m =
    let new : Schedule = record { schedule_id = id; state = scheduled; result = none } in
    record {
      few_active = omega (arith, put-active-le new left, m.no_more_active);
      few_kept = omega (arith, put-length-le new left, m.has_room refl);
      distinct = put-Distinct new left (m.still_distinct b.distinct);
    }
admit_into-IsBounded id jobs left (err e) b few m = record {
  few_active = omega (arith, m.no_more_active);
  few_kept = omega (arith, m.no_longer, b.few_kept);
  distinct = m.still_distinct b.distinct;
}

admit-IsBounded :
    (id : String) (jobs : List Schedule) → IsBounded jobs → IsBounded (admit id jobs).0
unfolding admit
admit-IsBounded id jobs b = elim (Bool-cases (leb max_active (active jobs))) [
  | inl e ↦ rw e b
  | inr e ↦ rw e (
      admit_into-IsBounded id jobs (make_room (suc (length jobs)) jobs).0
        (make_room (suc (length jobs)) jobs).1 b (ground arith)
        (make_room-MadeRoom (suc (length jobs)) jobs))
]

-- A job that takes the place of one that is there, and is not active where that was not.
put-IsBounded :
    (new : Schedule) (jobs : List Schedule) (j : Schedule)
    → find new.schedule_id jobs ≡ some j
    → weight new.state ≤ weight j.state
    → IsBounded jobs
    → IsBounded (put new jobs)
put-IsBounded new jobs j found less b = record {
  few_active = omega (arith, put-active new jobs j found, b.few_active);
  few_kept = omega (arith, put-length new jobs j found, b.few_kept);
  distinct = put-Distinct new jobs b.distinct;
}

remove-IsBounded :
    (id : String) (jobs : List Schedule) → IsBounded jobs → IsBounded (remove id jobs)
remove-IsBounded id jobs b = record {
  few_active = omega (arith, remove-active id jobs, b.few_active);
  few_kept = omega (arith, remove-le id jobs, b.few_kept);
  distinct = remove-Distinct id jobs b.distinct;
}

found_self :
    (id : String) (jobs : List Schedule) (j : Schedule)
    → find id jobs ≡ some j
    → find j.schedule_id jobs ≡ some j
found_self id jobs j h = subst (λ x. find x jobs ≡ some j) (sym (find-id id jobs j h)) h

-- The job that a step found is there under its own id.
abbrev Found : List Schedule → Option Schedule → Type 0
Found jobs none = Unit
Found jobs (some j) = find j.schedule_id jobs ≡ some j

Found-find : (id : String) (jobs : List Schedule) → Found jobs (find id jobs)
Found-find id jobs = split (find id jobs) refl
  where
    split : (o : Option Schedule) → find id jobs ≡ o → Found jobs o
    split none e = tt
    split (some j) e = found_self id jobs j e

begin_job-IsBounded :
    (s : Scheduler) (id : String) (o : Option Schedule)
    → Found s.schedules o
    → IsBounded s.schedules
    → IsBounded (begin_job s id o).schedules
unfolding begin_job
begin_job-IsBounded s id none f b = b
begin_job-IsBounded s id (some j) f b = split j.state refl
  where
    split : (st : State) → j.state ≡ st → IsBounded (begin_state s id j st).schedules
    split scheduled e = put-IsBounded (with_state j running) s.schedules j f (rw e (omega arith)) b
    split running e = b
    split complete e = b
    split failed e = b
    split cancelled e = b

end_jobs-IsBounded :
    (jobs : List Schedule) (outcome : Result Value) (o : Option Schedule)
    → Found jobs o
    → IsBounded jobs
    → IsBounded (end_jobs jobs outcome o)
unfolding end_jobs ended_job
end_jobs-IsBounded jobs outcome none f b = b
end_jobs-IsBounded jobs (ok v) (some j) f b =
    put-IsBounded (record { schedule_id = j.schedule_id; state = complete; result = some v }) jobs j
      f (omega arith) b
end_jobs-IsBounded jobs (err e) (some j) f b =
    put-IsBounded (with_state j failed) jobs j f (omega arith) b

cancel_job-IsBounded :
    (s : Scheduler) (o : Option Schedule)
    → Found s.schedules o
    → IsBounded s.schedules
    → IsBounded (cancel_job s o).0.schedules
unfolding cancel_job
cancel_job-IsBounded s none f b = b
cancel_job-IsBounded s (some j) f b = split j.state
  where
    bounded : IsBounded (put (with_state j cancelled) s.schedules)
    bounded = put-IsBounded (with_state j cancelled) s.schedules j f (omega arith) b

    split : (st : State) → IsBounded (cancel_state s j st).0.schedules
    split scheduled = bounded
    split running = b
    split complete = b
    split failed = b
    split cancelled = b

retrieve_job-IsBounded :
    (s : Scheduler) (o : Option Schedule)
    → IsBounded s.schedules
    → IsBounded (retrieve_job s o).0.schedules
unfolding retrieve_job
retrieve_job-IsBounded s none b = b
retrieve_job-IsBounded s (some j) b = split j.state
  where
    split : (st : State) → IsBounded (retrieve_state s j st).0.schedules
    split complete = remove-IsBounded j.schedule_id s.schedules b
    split scheduled = b
    split running = b
    split failed = b
    split cancelled = b

pub snapshot-IsBounded :
    (s : Scheduler) (r : Result (Unit {0})) (id : String)
    → IsBounded s.schedules
    → IsBounded (schedule_snapshot s r id).0.schedules
unfolding schedule_snapshot
snapshot-IsBounded s (ok u) id b = admit-IsBounded id s.schedules b
snapshot-IsBounded s (err e) id b = b

pub finish-IsBounded :
    (s : Scheduler) (id : String) (outcome : Result Value)
    → IsBounded s.schedules
    → IsBounded (finish s id outcome).schedules
unfolding finish
finish-IsBounded s id outcome b = elim (Bool-cases (contains s.threads id)) [
  | inl e ↦
      rw e
        (end_jobs-IsBounded s.schedules outcome (find id s.schedules) (Found-find id s.schedules) b)
  | inr e ↦ rw e b
]

pub cancel-IsBounded :
    (s : Scheduler) (v : Value)
    → IsBounded s.schedules
    → IsBounded (schedule_cancel s v).0.schedules
unfolding schedule_cancel
cancel-IsBounded s (str id) b = elim (Bool-cases (is_schedule_id id)) [
  | inl e ↦ rw e (cancel_job-IsBounded s (find id s.schedules) (Found-find id s.schedules) b)
  | inr e ↦ rw e b
]
cancel-IsBounded s _ b = b

pub retrieve-IsBounded :
    (s : Scheduler) (v : Value)
    → IsBounded s.schedules
    → IsBounded (schedule_result s v).0.schedules
unfolding schedule_result
retrieve-IsBounded s (str id) b = elim (Bool-cases (is_schedule_id id)) [
  | inl e ↦ rw e (retrieve_job-IsBounded s (find id s.schedules) b)
  | inr e ↦ rw e b
]
retrieve-IsBounded s _ b = b

pub step-IsBounded :
    (s : Scheduler) (e : Event) → IsBounded s.schedules → IsBounded (step s e).schedules
unfolding step begin
step-IsBounded s (request shared delay max id) b =
    snapshot-IsBounded s (check_schedule shared delay max) id b
step-IsBounded s (fires id) b =
    begin_job-IsBounded s id (find id s.schedules) (Found-find id s.schedules) b
step-IsBounded s (ends id outcome) b = finish-IsBounded s id outcome b
step-IsBounded s (cancel v) b = cancel-IsBounded s v b
step-IsBounded s (retrieve v) b = retrieve-IsBounded s v b

run_from-IsBounded :
    (s : Scheduler) (events : List Event)
    → IsBounded s.schedules
    → IsBounded (run s events).schedules
unfolding run
run_from-IsBounded s [] b = b
run_from-IsBounded s (e ∷ events) b = run_from-IsBounded (step s e) events (step-IsBounded s e b)

-- After any requests, timers, ends, cancellations and retrievals, in any order, at most four schedules are
-- active, at most thirty-two are kept, and no two have the same id.
pub run-IsBounded : (events : List Event) → IsBounded (run no_schedules events).schedules
unfolding active
run-IsBounded events =
    run_from-IsBounded no_schedules events
      (record { few_active = omega arith; few_kept = omega arith; distinct = tt })
