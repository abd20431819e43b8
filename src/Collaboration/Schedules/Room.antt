-- ===== src/Collaboration/Schedules/Room.antt =====
-- The loop that makes room for a schedule.
use llm_wiki_chrome.Prelude.{
  ℕ, zero, suc, ◌≤◌, ◌<◌, String, ◌≡◌, ◌≢◌, refl, inl, inr, Bool, true, false, Option, none, some,
  List, arith, length, Distinct, Option-cases, leb,
}
use llm_wiki_chrome.Result.{Result, ok, err, type_error, collaboration_error}
use llm_wiki_chrome.Collaboration.Schedules.{
  Schedule, max_retained, remove, active, first_evictable, make_room,
}
use llm_wiki_chrome.Collaboration.Schedules.Entries.{
  ids, find_evictable, remove-length, remove-active, remove-le, remove-Distinct,
}

-- With fuel for every schedule, the loop that makes room ends by its test or by its exception.
pub make_room-enough :
    (fuel : ℕ) (jobs : List Schedule)
    → length jobs < fuel
    → (make_room fuel jobs).1 ≢ err type_error
unfolding make_room
make_room-enough zero jobs h q = elim h [ ]
make_room-enough (suc fuel) jobs h q = elim (Option-cases (first_evictable jobs)) [
  | inl e ↦ ground arith
  | inr (id, e) ↦
      let (j, found) = find_evictable id jobs e in
      ground (arith, remove-length id jobs j found, make_room-enough fuel (remove id jobs))
]

-- What the loop leaves.
pub record MadeRoom (jobs left : List Schedule) (r : Result (Unit {0})) : Type 0 where
  pub no_more_active : active left ≤ active jobs
  pub no_longer : length left ≤ length jobs
  pub has_room : r ≡ ok tt → length left < max_retained
  pub still_distinct : Distinct (ids jobs) → Distinct (ids left)

pub make_room-MadeRoom :
    (fuel : ℕ) (jobs : List Schedule)
    → MadeRoom jobs (make_room fuel jobs).0 (make_room fuel jobs).1
unfolding make_room
make_room-MadeRoom zero jobs = record {
  no_more_active = omega arith;
  no_longer = omega arith;
  has_room = λ q. absurd (cc);
  still_distinct = λ d. d;
}
make_room-MadeRoom (suc fuel) jobs =
    full (leb max_retained (length jobs)) refl (first_evictable jobs)
      (λ id. make_room-MadeRoom fuel (remove id jobs))
  where
    loop : Bool → Option String → List Schedule × Result (Unit {0})
    loop b o = elim b [
      | false ↦ (jobs, ok tt)
      | true ↦ elim o [
        | none ↦ (
          jobs,
          err (collaboration_error "too many completed scheduled snapshots await retrieval"),
        )
        | some id ↦ make_room fuel (remove id jobs)
      ]
    ]

    full :
        (b : Bool)
        → leb max_retained (length jobs) ≡ b
        → (o : Option String)
        → ((id : String)
            → MadeRoom
                (remove id jobs)
                (make_room fuel (remove id jobs)).0
                (make_room fuel (remove id jobs)).1)
        → MadeRoom jobs (loop b o).0 (loop b o).1
    full false e o ih = record {
      no_more_active = omega arith;
      no_longer = omega arith;
      has_room = λ q. ground arith;
      still_distinct = λ d. d;
    }
    full true e none ih = record {
      no_more_active = omega arith;
      no_longer = omega arith;
      has_room = λ q. absurd (cc);
      still_distinct = λ d. d;
    }
    full true e (some id) ih = record {
      no_more_active = omega (arith, (ih id).no_more_active, remove-active id jobs);
      no_longer = omega (arith, (ih id).no_longer, remove-le id jobs);
      has_room = (ih id).has_room;
      still_distinct = λ d. (ih id).still_distinct (remove-Distinct id jobs d);
    }
