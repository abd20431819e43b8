-- ===== src/Collaboration/Schedules/Every.antt =====
-- What holds of every schedule that is kept.
use mathlib.Core.Path.{subst}
use llm_wiki_chrome.Prelude.{
  ℕ, zero, suc, String, ◌≡◌, inl, inr, Bool, true, false, Option, none, some, List, [], ◌∷◌, ◌==◌,
  All, Bool-cases, leb, length,
}
use llm_wiki_chrome.Result.{Result, ok, err, collaboration_error}
use llm_wiki_chrome.Collaboration.Schedules.{
  scheduled, Schedule, max_active, max_retained, find, remove, put, active, first_evictable,
  make_room, admit_into, admit,
}

module _ (P : Schedule → Type 0) where
  pub remove-All : (id : String) (jobs : List Schedule) → All P jobs → All P (remove id jobs)
  unfolding remove
  remove-All id [] h = tt
  remove-All id (j ∷ jobs) h = split (j.schedule_id == id) (remove-All id jobs h.1)
    where
      split :
          (b : Bool)
          → All P (remove id jobs)
          → All P (elim b [ true ↦ jobs | false ↦ j ∷ remove id jobs ])
      split true rest = h.1
      split false rest = (h.0, rest)

  pub put-All : (new : Schedule) (jobs : List Schedule) → P new → All P jobs → All P (put new jobs)
  unfolding put
  put-All new [] p h = (p, tt)
  put-All new (j ∷ jobs) p h = split (j.schedule_id == new.schedule_id) (put-All new jobs p h.1)
    where
      split :
          (b : Bool)
          → All P (put new jobs)
          → All P (elim b [ true ↦ new ∷ jobs | false ↦ j ∷ put new jobs ])
      split true rest = (p, h.1)
      split false rest = (h.0, rest)

  pub find-All :
      (id : String) (jobs : List Schedule) (j : Schedule) → find id jobs ≡ some j → All P jobs → P j
  unfolding find
  find-All id [] j q h = absurd (cc)
  find-All id (x ∷ jobs) j q h = split (x.schedule_id == id) q (λ k. find-All id jobs j k h.1)
    where
      split :
          (b : Bool)
          → elim b [ true ↦ some x | false ↦ find id jobs ] ≡ some j
          → (find id jobs ≡ some j → P j)
          → P j
      split true k rest = subst P (cc) h.0
      split false k rest = rest k

  pub make_room-All : (fuel : ℕ) (jobs : List Schedule) → All P jobs → All P (make_room fuel jobs).0
  unfolding make_room
  make_room-All zero jobs h = h
  make_room-All (suc fuel) jobs h =
      split (leb max_retained (length jobs)) (first_evictable jobs)
        (λ id. make_room-All fuel (remove id jobs) (remove-All id jobs h))
    where
      loop : Bool → Option String → List Schedule × Result (Unit {0})
      loop b o = elim b [
        | false ↦ (jobs, ok tt)
        | true ↦ elim o [
          | none ↦ (
            jobs,
            err (collaboration_error "too many completed scheduled snapshots await retrieval"),
          )
          | some id ↦ make_room fuel (remove id jobs)
        ]
      ]

      split :
          (b : Bool) (o : Option String)
          → ((id : String) → All P (make_room fuel (remove id jobs)).0)
          → All P (loop b o).0
      split false o rest = h
      split true none rest = h
      split true (some id) rest = rest id

  pub admit-All :
      (id : String) (jobs : List Schedule)
      → P (record { schedule_id = id; state = scheduled; result = none })
      → All P jobs
      → All P (admit id jobs).0
  unfolding admit admit_into
  admit-All id jobs p h = elim (Bool-cases (leb max_active (active jobs))) [
    | inl e ↦ rw e h
    | inr e ↦
        rw e (split (make_room (suc (length jobs)) jobs) (make_room-All (suc (length jobs)) jobs h))
  ]
    where
      split : (m : List Schedule × Result (Unit {0})) → All P m.0 → All P (admit_into id m).0
      split (left, ok u) k = put-All _ left p k
      split (left, err e) k = k
