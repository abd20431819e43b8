-- ===== src/Collaboration/Schedules/Delivered.antt =====
-- The result of a scheduled snapshot reaches the agent once.
use mathlib.Core.Path.{subst}
use llm_wiki_chrome.Sets.{In-contains}
use llm_wiki_chrome.Prelude.{
  All, ◌++◌, ◌∙◌, String, ◌≡◌, refl, sym, inl, inr, true, none, some, List, [], ◌∷◌, ◌==◌, eq_iff,
  eq_refl, arith, In, Distinct, Bool-cases,
}
use llm_wiki_chrome.Result.{ok}
use llm_wiki_chrome.Json.{Value, str, obj, dict}
use llm_wiki_chrome.Collaboration.Schedules.{
  scheduled, running, complete, Schedule, Scheduler, find, remove, put, with_state, begin, Event,
  fires, ends, step, run, begin_job, finish, end_jobs, ended_job, is_schedule_id, retrieve_job,
  schedule_result,
}
use llm_wiki_chrome.Collaboration.Schedules.Entries.{ids, find-id}
use llm_wiki_chrome.Collaboration.Schedules.Retained.{IsBounded, step-IsBounded}
use llm_wiki_chrome.Collaboration.Schedules.Left.{Leaves, IsAt, run-IsAt, run-works}

find-put : (new : Schedule) (jobs : List Schedule) → find new.schedule_id (put new jobs) ≡ some new
unfolding find put
find-put new [] = ground (arith, eq_refl new.schedule_id)
find-put new (j ∷ jobs) = ground (arith, eq_refl new.schedule_id, find-put new jobs)

find-absent : (id : String) (jobs : List Schedule) → ¬ (In id (ids jobs)) → find id jobs ≡ none
unfolding find
find-absent id [] absent = refl
find-absent id (j ∷ jobs) absent = elim (Bool-cases (j.schedule_id == id)) [
  | inl e ↦ absurd (absent (inl (sym ((eq_iff j.schedule_id id).0 e))))
  | inr e ↦ ground (arith, find-absent id jobs (λ m. absent (inr m)))
]

find-remove :
    (id : String) (jobs : List Schedule) → Distinct (ids jobs) → find id (remove id jobs) ≡ none
unfolding find remove
find-remove id [] d = refl
find-remove id (j ∷ jobs) d = elim (Bool-cases (j.schedule_id == id)) [
  | inl e ↦ ground (
    arith,
    find-absent id jobs (subst (λ x. ¬ (In x (ids jobs))) ((eq_iff j.schedule_id id).0 e) d.0),
  )
  | inr e ↦ ground (arith, find-remove id jobs d.1)
]

-- The schedule that has ended with a value.
abbrev pub completed : String → Value → Schedule
completed id v = record { schedule_id = id; state = complete; result = some v }

abbrev pub delivered : String → Value → Value
delivered id v =
    obj (dict (("schedule_id", str id) ∷ ("state", str "complete") ∷ ("result", v) ∷ []))

begin-scheduled :
    (s : Scheduler) (id : String) (j : Schedule)
    → find id s.schedules ≡ some j
    → j.state ≡ scheduled
    → begin s id
      ≡ record { schedules = put (with_state j running) s.schedules; threads = id ∷ s.threads }
unfolding begin begin_job
begin-scheduled s id j q e = rw (q, e) refl

run-append : (s : Scheduler) (xs ys : List Event) → run s (xs ++ ys) ≡ run (run s xs) ys
unfolding run
run-append s [] ys = refl
run-append s (x ∷ xs) ys = run-append (step s x) xs ys

run-phases :
    (s : Scheduler) (e : Event) (xs ys : List Event)
    → run s (e ∷ (xs ++ ys)) ≡ run (run (step s e) xs) ys
unfolding run
run-phases s e xs ys = run-append (step s e) xs ys

-- The timer of the schedule fires and its snapshot returns, with other events before, between and behind.
abbrev pub completing :
    (id : String) → (v : Value) → (before during after : List Event) → List Event
completing id v before during after = before ++ fires id ∷ (during ++ ends id (ok v) ∷ after)

fires-IsAt :
    (s : Scheduler) (id : String) (j : Schedule)
    → j.state ≡ scheduled
    → IsAt id j s
    → IsAt id (with_state j running) (step s (fires id)) × In id (step s (fires id)).threads
unfolding step
fires-IsAt s id j e a =
    let started = begin-scheduled s id j a.here e in
    let same : j.schedule_id ≡ id = find-id id s.schedules j a.here in
    (
      record {
        here =
            subst (λ x. find id x.schedules ≡ some (with_state j running)) (sym started)
              (subst
                (λ x. find x (put (with_state j running) s.schedules) ≡ some (with_state j running))
                same (find-put (with_state j running) s.schedules));
        bounded = step-IsBounded s (fires id) a.bounded;
      },
      subst (λ x. In id x.threads) (sym started) (inl refl),
    )

ends-IsAt :
    (s : Scheduler) (id : String) (j : Schedule) (v : Value)
    → IsAt id j s
    → In id s.threads
    → IsAt id (completed id v) (step s (ends id (ok v)))
unfolding step finish end_jobs ended_job
ends-IsAt s id j v a m =
    let same : j.schedule_id ≡ id = find-id id s.schedules j a.here in
    record {
      here = rw (In-contains s.threads id m, a.here, same) (find-put (completed id v) s.schedules);
      bounded = step-IsBounded s (ends id (ok v)) a.bounded;
    }

-- A completed schedule is given once.
schedule_result-once :
    (s : Scheduler) (id : String) (v : Value)
    → is_schedule_id id ≡ true
    → IsAt id (completed id v) s
    → ((schedule_result s (str id)).1 ≡ ok (delivered id v))
      × (find id (schedule_result s (str id)).0.schedules ≡ none)
unfolding schedule_result retrieve_job
schedule_result-once s id v valid a =
    (rw (valid, a.here) refl, rw (valid, a.here) (find-remove id s.schedules a.bounded.distinct))

-- A schedule that its timer starts and whose snapshot returns is delivered once: the next request for its
-- result gives what the snapshot returned, and behind it the schedule is gone. Before the timer, while the
-- snapshot runs and until the request, any events may stand that are not about this schedule, among them
-- requests that make room, and also early requests for its result and late cancellations of it.
pub schedule_result-delivers :
    (s : Scheduler) (id : String) (j : Schedule) (v : Value) (before during after : List Event)
    → IsBounded s.schedules
    → is_schedule_id id ≡ true
    → find id s.schedules ≡ some j
    → j.state ≡ scheduled
    → All (Leaves id scheduled) before
    → All (Leaves id running) during
    → All (Leaves id complete) after
    → ((schedule_result (run s (completing id v before during after)) (str id)).1
        ≡ ok (delivered id v))
      × (find id
            (schedule_result (run s (completing id v before during after)) (str id)).0.schedules
          ≡ none)
unfolding run step
schedule_result-delivers s id j v before during after b valid q e first second third =
    let waits : IsAt id j (run s before) =
      run-IsAt id j (rw e refl) before s (subst (λ st. All (Leaves id st) before) (sym e) first)
        (record { here = q; bounded = b }) in
    let (starts, works) = fires-IsAt (run s before) id j e waits in
    let running_s : Scheduler = run (step (run s before) (fires id)) during in
    let runs : IsAt id (with_state j running) running_s =
      run-IsAt id (with_state j running) refl during _ second starts in
    let at_work : In id running_s.threads =
      run-works id (with_state j running) refl during _ second works in
    let ended : IsAt id (completed id v) (run (step running_s (ends id (ok v))) after) =
      run-IsAt id (completed id v) refl after _ third
        (ends-IsAt running_s id (with_state j running) v runs at_work) in
    let same : run s (completing id v before during after)
        ≡ run (step running_s (ends id (ok v))) after =
      run-append s before (fires id ∷ (during ++ ends id (ok v) ∷ after))
      ∙ run-phases (run s before) (fires id) during (ends id (ok v) ∷ after) in
    schedule_result-once _ id v valid (subst (IsAt id (completed id v)) (sym same) ended)
