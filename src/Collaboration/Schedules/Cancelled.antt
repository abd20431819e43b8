-- ===== src/Collaboration/Schedules/Cancelled.antt =====
-- A cancellation is final.
use mathlib.Core.Path.{subst}
use llm_wiki_chrome.Prelude.{
  String, ◌≡◌, ◌≢◌, refl, sym, ◌∙◌, ◌⊎◌, inl, inr, Bool, true, false, Option, none, some, List, [],
  ◌∷◌, ◌==◌, eq_iff, All, In, Distinct, Bool-cases, contains,
}
use llm_wiki_chrome.Sets.{contains-In}
use llm_wiki_chrome.Result.{Result, ok, err}
use llm_wiki_chrome.Json.{Value, str}
use llm_wiki_chrome.Collaboration.Schedules.{
  State, scheduled, running, complete, failed, cancelled, Schedule, Scheduler, find, put,
  check_schedule, schedule_snapshot, with_state, begin_state, begin_job, begin, ended_job, end_jobs,
  finish, leave, is_schedule_id, cancel_state, cancel_job, schedule_cancel, retrieve_state,
  retrieve_job, schedule_result, Event, request, fires, ends, cancel, retrieve, step, run,
}
use llm_wiki_chrome.Collaboration.Schedules.Entries.{ids, find-id}
use llm_wiki_chrome.Collaboration.Schedules.Every.{remove-All, put-All, find-All, admit-All}
use llm_wiki_chrome.Collaboration.Schedules.Retained.{IsBounded}

-- No thread of the schedule is at work, and where it is kept it is cancelled.
pub record IsCancelled (id : String) (s : Scheduler) : Type 0 where
  pub idle : ¬ (In id s.threads)
  pub entries : All (λ j. (j.schedule_id ≢ id) ⊎ (j.state ≡ cancelled)) s.schedules

-- The ids that the events request.
unfoldable pub requested : List Event → List String
requested [] = []
requested (request shared delay_seconds max_items new_id ∷ events) = new_id ∷ requested events
requested (_ ∷ events) = requested events

abbrev Spares : String → Schedule → Type 0
Spares id j = (j.schedule_id ≢ id) ⊎ (j.state ≡ cancelled)

module _ (id : String) where
  leave-In : (x : String) (xs : List String) → In id (leave x xs) → In id xs
  unfolding leave
  leave-In x [] m = m
  leave-In x (y ∷ ys) m = split (y == x) m (leave-In x ys)
    where
      split :
          (b : Bool)
          → In id (elim b [ true ↦ ys | false ↦ y ∷ leave x ys ])
          → (In id (leave x ys) → In id ys)
          → In id (y ∷ ys)
      split true k rest = inr k
      split false (inl e) rest = inl e
      split false (inr k) rest = inr (rest k)

  -- The job that was found under a key has this key.
  begin-IsCancelled : (s : Scheduler) (x : String) → IsCancelled id s → IsCancelled id (begin s x)
  unfolding begin begin_job
  begin-IsCancelled s x c = found (find x s.schedules) refl
    where
      started :
          (j : Schedule) (st : State)
          → find x s.schedules ≡ some j
          → j.state ≡ st
          → IsCancelled id (begin_state s x j st)
      started j scheduled q e =
          let other : j.schedule_id ≢ id = elim (find-All (Spares id) x s.schedules j q c.entries) [
            | inl n ↦ n
            | inr k ↦ absurd (cc)
          ] in
          record {
            idle = λ m. elim m [
              | inl same ↦ other (find-id x s.schedules j q ∙ sym same)
              | inr k ↦ c.idle k
            ];
            entries = put-All (Spares id) (with_state j running) s.schedules (inl other) c.entries;
          }
      started j running q e = c
      started j complete q e = c
      started j failed q e = c
      started j cancelled q e = c

      found : (o : Option Schedule) → find x s.schedules ≡ o → IsCancelled id (begin_job s x o)
      found none q = c
      found (some j) q = started j j.state q refl

  finish-IsCancelled :
      (s : Scheduler) (x : String) (outcome : Result Value)
      → IsCancelled id s
      → IsCancelled id (finish s x outcome)
  unfolding finish end_jobs ended_job
  finish-IsCancelled s x outcome c = elim (Bool-cases (contains s.threads x)) [
    | inl e ↦ rw e (record {
      idle = λ m. c.idle (leave-In x s.threads m);
      entries = ended (find x s.schedules) refl outcome (contains-In s.threads x e);
    })
    | inr e ↦ rw e c
  ]
    where
      other : (j : Schedule) → find x s.schedules ≡ some j → In x s.threads → j.schedule_id ≢ id
      other j q m same =
          c.idle (subst (λ y. In y s.threads) (sym (find-id x s.schedules j q) ∙ same) m)

      ended :
          (o : Option Schedule)
          → find x s.schedules ≡ o
          → (outcome : Result Value) → In x s.threads
          → All (Spares id) (end_jobs s.schedules outcome o)
      ended none q outcome m = c.entries
      ended (some j) q (ok v) m = put-All (Spares id) _ s.schedules (inl (other j q m)) c.entries
      ended (some j) q (err e) m = put-All (Spares id) _ s.schedules (inl (other j q m)) c.entries

  cancel_job-IsCancelled :
      (s : Scheduler) (o : Option Schedule) → IsCancelled id s → IsCancelled id (cancel_job s o).0
  unfolding cancel_job
  cancel_job-IsCancelled s none c = c
  cancel_job-IsCancelled s (some j) c = split j.state
    where
      split : (st : State) → IsCancelled id (cancel_state s j st).0
      split scheduled = record {
        idle = c.idle;
        entries = put-All (Spares id) (with_state j cancelled) s.schedules (inr refl) c.entries;
      }
      split running = c
      split complete = c
      split failed = c
      split cancelled = c

  retrieve_job-IsCancelled :
      (s : Scheduler) (o : Option Schedule) → IsCancelled id s → IsCancelled id (retrieve_job s o).0
  unfolding retrieve_job
  retrieve_job-IsCancelled s none c = c
  retrieve_job-IsCancelled s (some j) c = split j.state
    where
      split : (st : State) → IsCancelled id (retrieve_state s j st).0
      split complete = record {
        idle = c.idle;
        entries = remove-All (Spares id) j.schedule_id s.schedules c.entries;
      }
      split scheduled = c
      split running = c
      split failed = c
      split cancelled = c

  schedule_cancel-IsCancelled :
      (s : Scheduler) (v : Value) → IsCancelled id s → IsCancelled id (schedule_cancel s v).0
  unfolding schedule_cancel
  schedule_cancel-IsCancelled s (str x) c = elim (Bool-cases (is_schedule_id x)) [
    | inl e ↦ rw e (cancel_job-IsCancelled s (find x s.schedules) c)
    | inr e ↦ rw e c
  ]
  schedule_cancel-IsCancelled s _ c = c

  schedule_result-IsCancelled :
      (s : Scheduler) (v : Value) → IsCancelled id s → IsCancelled id (schedule_result s v).0
  unfolding schedule_result
  schedule_result-IsCancelled s (str x) c = elim (Bool-cases (is_schedule_id x)) [
    | inl e ↦ rw e (retrieve_job-IsCancelled s (find x s.schedules) c)
    | inr e ↦ rw e c
  ]
  schedule_result-IsCancelled s _ c = c

  step-IsCancelled :
      (s : Scheduler) (e : Event)
      → ¬ (In id (requested (e ∷ [])))
      → IsCancelled id s
      → IsCancelled id (step s e)
  unfolding step requested schedule_snapshot
  step-IsCancelled s (request shared delay_seconds max_items new_id) other c =
      admitted (check_schedule shared delay_seconds max_items)
    where
      admitted : (r : Result (Unit {0})) → IsCancelled id (schedule_snapshot s r new_id).0
      admitted (ok u) = record {
        idle = c.idle;
        entries = admit-All (Spares id) new_id s.schedules (inl λ q. other (inl (sym q))) c.entries;
      }
      admitted (err e) = c
  step-IsCancelled s (fires x) other c = begin-IsCancelled s x c
  step-IsCancelled s (ends x outcome) other c = finish-IsCancelled s x outcome c
  step-IsCancelled s (cancel v) other c = schedule_cancel-IsCancelled s v c
  step-IsCancelled s (retrieve v) other c = schedule_result-IsCancelled s v c

  run_from-IsCancelled :
      (events : List Event) (s : Scheduler)
      → ¬ (In id (requested events))
      → IsCancelled id s
      → IsCancelled id (run s events)
  unfolding run requested
  run_from-IsCancelled [] s other c = c
  run_from-IsCancelled (request shared delay_seconds max_items new_id ∷ events) s other c =
      run_from-IsCancelled events _ (λ m. other (inr m))
        (step-IsCancelled s (request shared delay_seconds max_items new_id)
          (λ m. elim m [ inl q ↦ other (inl q) | inr k ↦ k ]) c)
  run_from-IsCancelled (e ∷ events) s other c =
      run_from-IsCancelled events (step s e) other (step-IsCancelled s e (λ m. m) c)

  absent-Spares : (jobs : List Schedule) → ¬ (In id (ids jobs)) → All (Spares id) jobs
  absent-Spares [] absent = tt
  absent-Spares (j ∷ jobs) absent =
      (inl (λ q. absent (inl (sym q))), absent-Spares jobs λ m. absent (inr m))

  -- A key that stands once.
  put-Spares :
      (new : Schedule) (jobs : List Schedule)
      → new.schedule_id ≡ id
      → new.state ≡ cancelled
      → Distinct (ids jobs)
      → All (Spares id) (put new jobs)
  unfolding put
  put-Spares new [] same is_cancelled d = (inr is_cancelled, tt)
  put-Spares new (j ∷ jobs) same is_cancelled d =
      split (j.schedule_id == new.schedule_id) refl (put-Spares new jobs same is_cancelled d.1)
    where
      split :
          (b : Bool)
          → (j.schedule_id == new.schedule_id) ≡ b
          → All (Spares id) (put new jobs)
          → All (Spares id) (elim b [ true ↦ new ∷ jobs | false ↦ j ∷ put new jobs ])
      split true e rest =
          let here : j.schedule_id ≡ id = (eq_iff j.schedule_id new.schedule_id).0 e ∙ same in
          (inr is_cancelled, absent-Spares jobs (subst (λ x. ¬ (In x (ids jobs))) here d.0))
      split false e rest =
          (inl (λ q. cc ((eq_iff j.schedule_id new.schedule_id).1 (q ∙ sym same))), rest)

  told-IsCancelled :
      (s : Scheduler) (told : Value) (o : Option Schedule)
      → Distinct (ids s.schedules)
      → ¬ (In id s.threads)
      → find id s.schedules ≡ o
      → (cancel_job s o).1 ≡ ok told
      → IsCancelled id (cancel_job s o).0
  unfolding cancel_job
  told-IsCancelled s told none d idle q h = absurd (cc)
  told-IsCancelled s told (some j) d idle q h = split j.state h
    where
      split :
          (st : State) → (cancel_state s j st).1 ≡ ok told → IsCancelled id (cancel_state s j st).0
      split scheduled k = record {
        idle = idle;
        entries =
            put-Spares (with_state j cancelled) s.schedules (find-id id s.schedules j q) refl d;
      }
      split running k = absurd (cc)
      split complete k = absurd (cc)
      split failed k = absurd (cc)
      split cancelled k = absurd (cc)

  -- A schedule whose cancellation was confirmed while its thread was not at work never runs: whatever
  -- happens from there, as long as its id is not drawn once more, its thread does not start and the
  -- schedule is cancelled where it is kept.
  pub cancel-final :
      (s : Scheduler) (told : Value) (events : List Event)
      → IsBounded s.schedules
      → ¬ (In id s.threads)
      → (schedule_cancel s (str id)).1 ≡ ok told
      → ¬ (In id (requested events))
      → IsCancelled id (run (schedule_cancel s (str id)).0 events)
  unfolding schedule_cancel
  cancel-final s told events b idle h other =
      run_from-IsCancelled events _ other (elim (Bool-cases (is_schedule_id id)) [
        | inl e ↦
            rw e (told-IsCancelled s told (find id s.schedules) b.distinct idle refl (rw e at h))
        | inr e ↦ absurd (cc (rw e at h))
      ])
