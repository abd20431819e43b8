-- ===== src/Collaboration/Schedules/Left.antt =====
-- What events that are not about a schedule leave of it.
use mathlib.Core.Path.{subst}
use llm_wiki_chrome.Prelude.{
  String, ◌≡◌, ◌≢◌, refl, sym, ◌∙◌, ap, ◌⊎◌, inl, inr, Bool, true, false, Option, none, some, List,
  [], ◌∷◌, ◌==◌, eq_iff, arith, All, In, Bool-cases, contains,
}
use llm_wiki_chrome.Result.{Result, ok, err}
use llm_wiki_chrome.Json.{Value, str}
use llm_wiki_chrome.Collaboration.Schedules.{
  State, scheduled, running, complete, cancelled, Schedule, Scheduler, is_evictable, find,
  check_schedule, schedule_snapshot, with_state, begin_state, begin_job, begin, ended_job, end_jobs,
  finish, leave, is_schedule_id, cancel_state, cancel_job, schedule_cancel, retrieve_state,
  retrieve_job, schedule_result, Event, request, fires, ends, cancel, retrieve, step, run,
}
use llm_wiki_chrome.Collaboration.Schedules.Entries.{find-id}
use llm_wiki_chrome.Collaboration.Schedules.Retained.{IsBounded, step-IsBounded}
use llm_wiki_chrome.Collaboration.Schedules.Found.{find-put-other, find-remove-other, admit-find}

-- What an event leaves alone of a schedule in a state: the event is about another id, or it is a cancellation
-- of what is not scheduled or a request for a result that is not there.
abbrev pub Leaves : String → State → Event → Type 0
Leaves id state (request shared delay_seconds max_items new_id) = new_id ≢ id
Leaves id state (fires x) = x ≢ id
Leaves id state (ends x outcome) = x ≢ id
Leaves id state (cancel v) = (v ≢ str id) ⊎ (state ≢ scheduled)
Leaves id state (retrieve v) = (v ≢ str id) ⊎ (state ≢ complete)

schedule_cancel-threads : (s : Scheduler) (v : Value) → (schedule_cancel s v).0.threads ≡ s.threads
unfolding schedule_cancel cancel_job
schedule_cancel-threads s (str x) = ground arith
schedule_cancel-threads s _ = refl

schedule_result-threads : (s : Scheduler) (v : Value) → (schedule_result s v).0.threads ≡ s.threads
unfolding schedule_result retrieve_job
schedule_result-threads s (str x) = ground arith
schedule_result-threads s _ = refl

-- A schedule as it is kept.
pub record IsAt (id : String) (j : Schedule) (s : Scheduler) : Type 0 where
  pub here : find id s.schedules ≡ some j
  pub bounded : IsBounded s.schedules

module _ (id : String) (j : Schedule) (stays : is_evictable j.state ≡ false) where
  -- A schedule that another id finds.
  other-id :
      (x : String) (jobs : List Schedule) (k : Schedule)
      → x ≢ id
      → find x jobs ≡ some k
      → k.schedule_id ≢ id
  other-id x jobs k n q same = n (sym (find-id x jobs k q) ∙ same)

  -- A schedule in a state that the event is not about.
  other-state :
      (x : String) (jobs : List Schedule) (k : Schedule) (state : State)
      → find id jobs ≡ some j
      → find x jobs ≡ some k
      → k.state ≡ state
      → (str x ≢ str id) ⊎ (j.state ≢ state)
      → k.schedule_id ≢ id
  other-state x jobs k state here q e (inl n) same = n (ap str (sym (find-id x jobs k q) ∙ same))
  other-state x jobs k state here q e (inr n) same =
      let there : find id jobs ≡ some k =
        subst (λ y. find y jobs ≡ some k) (sym (find-id x jobs k q) ∙ same) q in
      n (ap (λ y. y.state) (some-same (sym here ∙ there)) ∙ e)
    where
      some-same : {a b : Schedule} → some a ≡ some b → a ≡ b
      some-same h = cc

  begin-find :
      (s : Scheduler) (x : String)
      → x ≢ id
      → find id s.schedules ≡ some j
      → find id (begin s x).schedules ≡ some j
  unfolding begin begin_job
  begin-find s x n here = found (find x s.schedules) refl
    where
      started :
          (k : Schedule) (st : State)
          → find x s.schedules ≡ some k
          → find id (begin_state s x k st).schedules ≡ some j
      started k scheduled q =
          find-put-other id (with_state k running) s.schedules (other-id x s.schedules k n q) ∙ here
      started k _ q = here

      found :
          (o : Option Schedule)
          → find x s.schedules ≡ o
          → find id (begin_job s x o).schedules ≡ some j
      found none q = here
      found (some k) q = started k k.state q

  finish-find :
      (s : Scheduler) (x : String) (outcome : Result Value)
      → x ≢ id
      → find id s.schedules ≡ some j
      → find id (finish s x outcome).schedules ≡ some j
  unfolding finish end_jobs ended_job
  finish-find s x outcome n here = elim (Bool-cases (contains s.threads x)) [
    | inl e ↦ rw e (ended (find x s.schedules) refl outcome)
    | inr e ↦ rw e here
  ]
    where
      ended :
          (o : Option Schedule)
          → find x s.schedules ≡ o
          → (outcome : Result Value) → find id (end_jobs s.schedules outcome o) ≡ some j
      ended none q outcome = here
      ended (some k) q (ok v) =
          find-put-other id _ s.schedules (other-id x s.schedules k n q) ∙ here
      ended (some k) q (err e) =
          find-put-other id _ s.schedules (other-id x s.schedules k n q) ∙ here

  cancel-find :
      (s : Scheduler) (v : Value)
      → (v ≢ str id) ⊎ (j.state ≢ scheduled)
      → find id s.schedules ≡ some j
      → find id (schedule_cancel s v).0.schedules ≡ some j
  unfolding schedule_cancel cancel_job
  cancel-find s (str x) n here = elim (Bool-cases (is_schedule_id x)) [
    | inl e ↦ rw e (found (find x s.schedules) refl)
    | inr e ↦ rw e here
  ]
    where
      at :
          (k : Schedule) (st : State)
          → find x s.schedules ≡ some k
          → k.state ≡ st
          → find id (cancel_state s k st).0.schedules ≡ some j
      at k scheduled q e =
          find-put-other id (with_state k cancelled) s.schedules
            (other-state x s.schedules k scheduled here q e n)
          ∙ here
      at k _ q e = here

      found :
          (o : Option Schedule)
          → find x s.schedules ≡ o
          → find id (cancel_job s o).0.schedules ≡ some j
      found none q = here
      found (some k) q = at k k.state q refl
  cancel-find s _ n here = here

  retrieve-find :
      (s : Scheduler) (v : Value)
      → (v ≢ str id) ⊎ (j.state ≢ complete)
      → find id s.schedules ≡ some j
      → find id (schedule_result s v).0.schedules ≡ some j
  unfolding schedule_result retrieve_job
  retrieve-find s (str x) n here = elim (Bool-cases (is_schedule_id x)) [
    | inl e ↦ rw e (found (find x s.schedules) refl)
    | inr e ↦ rw e here
  ]
    where
      at :
          (k : Schedule) (st : State)
          → find x s.schedules ≡ some k
          → k.state ≡ st
          → find id (retrieve_state s k st).0.schedules ≡ some j
      at k complete q e =
          find-remove-other id k.schedule_id s.schedules
            (other-state x s.schedules k complete here q e n)
          ∙ here
      at k _ q e = here

      found :
          (o : Option Schedule)
          → find x s.schedules ≡ o
          → find id (retrieve_job s o).0.schedules ≡ some j
      found none q = here
      found (some k) q = at k k.state q refl
  retrieve-find s _ n here = here

  step-find :
      (s : Scheduler) (e : Event)
      → IsBounded s.schedules
      → Leaves id j.state e
      → find id s.schedules ≡ some j
      → find id (step s e).schedules ≡ some j
  unfolding step schedule_snapshot
  step-find s (request shared delay_seconds max_items x) b n here =
      admitted (check_schedule shared delay_seconds max_items)
    where
      admitted : (r : Result (Unit {0})) → find id (schedule_snapshot s r x).0.schedules ≡ some j
      admitted (ok u) = admit-find id j stays x s.schedules n b.distinct here
      admitted (err e) = here
  step-find s (fires x) b n here = begin-find s x n here
  step-find s (ends x outcome) b n here = finish-find s x outcome n here
  step-find s (cancel v) b n here = cancel-find s v n here
  step-find s (retrieve v) b n here = retrieve-find s v n here

  -- The thread of the schedule stays at work.
  leave-other :
      (x : String) (threads : List String) → x ≢ id → In id threads → In id (leave x threads)
  unfolding leave
  leave-other x [] n m = m
  leave-other x (y ∷ ys) n m = split (y == x) refl m (leave-other x ys n)
    where
      split :
          (b : Bool)
          → (y == x) ≡ b
          → In id (y ∷ ys)
          → (In id ys → In id (leave x ys))
          → In id (elim b [ true ↦ ys | false ↦ y ∷ leave x ys ])
      split true e (inl same) rest = absurd (n (sym ((eq_iff y x).0 e) ∙ sym same))
      split true e (inr k) rest = k
      split false e (inl same) rest = inl same
      split false e (inr k) rest = inr (rest k)

  step-works :
      (s : Scheduler) (e : Event) → Leaves id j.state e → In id s.threads → In id (step s e).threads
  unfolding step schedule_snapshot begin begin_job finish schedule_cancel cancel_job schedule_result
      retrieve_job
  step-works s (request shared delay_seconds max_items x) n m =
      admitted (check_schedule shared delay_seconds max_items)
    where
      admitted : (r : Result (Unit {0})) → In id (schedule_snapshot s r x).0.threads
      admitted (ok u) = m
      admitted (err e) = m
  step-works s (fires x) n m = found (find x s.schedules)
    where
      started : (k : Schedule) (st : State) → In id (begin_state s x k st).threads
      started k scheduled = inr m
      started k _ = m

      found : (o : Option Schedule) → In id (begin_job s x o).threads
      found none = m
      found (some k) = started k k.state
  step-works s (ends x outcome) n m = elim (Bool-cases (contains s.threads x)) [
    | inl e ↦ rw e (leave-other x s.threads n m)
    | inr e ↦ rw e m
  ]
  step-works s (cancel v) n m = subst (λ ts. In id ts) (sym (schedule_cancel-threads s v)) m
  step-works s (retrieve v) n m = subst (λ ts. In id ts) (sym (schedule_result-threads s v)) m

  -- After events that leave the schedule alone it is as it was.
  pub run-IsAt :
      (events : List Event) (s : Scheduler)
      → All (Leaves id j.state) events
      → IsAt id j s
      → IsAt id j (run s events)
  unfolding run
  run-IsAt [] s n a = a
  run-IsAt (e ∷ events) s n a =
      run-IsAt events (step s e) n.1 (record {
        here = step-find s e a.bounded n.0 a.here;
        bounded = step-IsBounded s e a.bounded;
      })

  pub run-works :
      (events : List Event) (s : Scheduler)
      → All (Leaves id j.state) events
      → In id s.threads
      → In id (run s events).threads
  unfolding run
  run-works [] s n m = m
  run-works (e ∷ events) s n m = run-works events (step s e) n.1 (step-works s e n.0 m)
