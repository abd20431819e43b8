-- ===== src/Collaboration/Schedules/Entries.antt =====
-- The dictionary of schedules: what `find`, `put` and `remove` do to its keys, its size and the number of
-- its active jobs.
use mathlib.Core.Path.{subst}
use llm_wiki_chrome.Prelude.{
  ℕ, ◌+◌, ◌≤◌, String, ◌≡◌, refl, sym, inl, inr, ◌⊎◌, Bool, true, false, none, some, List, [], ◌∷◌,
  ◌==◌, eq_iff, eq_refl, arith, length, In, Distinct, Bool-cases, map, if◌then◌else◌,
}
use llm_wiki_chrome.Collaboration.Schedules.{
  Schedule, State, is_active, find, remove, put, active, first_evictable,
}

abbrev pub ids : List Schedule → List String
ids jobs = map (λ j. j.schedule_id) jobs

abbrev pub weight : State → ℕ
weight state = if is_active state then 1 else 0

pub find-id :
    (id : String) (jobs : List Schedule) (j : Schedule) → find id jobs ≡ some j → j.schedule_id ≡ id
unfolding find
find-id id [] j h = absurd (cc)
find-id id (x ∷ jobs) j h = ground (arith, eq_iff x.schedule_id id, find-id id jobs j)

pub find-none : (id : String) (jobs : List Schedule) → find id jobs ≡ none → ¬ (In id (ids jobs))
unfolding find
find-none id [] h m = m
find-none id (x ∷ jobs) h (inl e) = ground (arith, eq_iff x.schedule_id id)
find-none id (x ∷ jobs) h (inr m) = ground (arith, find-none id jobs)

pub find_evictable :
    (id : String) (jobs : List Schedule)
    → first_evictable jobs ≡ some id
    → (j : Schedule) × (find id jobs ≡ some j)
unfolding first_evictable find
find_evictable id [] h = absurd (cc)
find_evictable id (x ∷ jobs) h = elim (Bool-cases (x.schedule_id == id)) [
  | inl e ↦ (x, ground arith)
  | inr e ↦
      let (j, q) = find_evictable id jobs (ground (arith, eq_refl x.schedule_id)) in
      (j, ground arith)
]

pub remove-length :
    (id : String) (jobs : List Schedule) (j : Schedule)
    → find id jobs ≡ some j
    → length (remove id jobs) + 1 ≡ length jobs
unfolding find remove
remove-length id [] j h = absurd (cc)
remove-length id (x ∷ jobs) j h = ground (arith, remove-length id jobs j)

pub remove-active : (id : String) (jobs : List Schedule) → active (remove id jobs) ≤ active jobs
unfolding remove active
remove-active id [] = omega arith
remove-active id (x ∷ jobs) = ground (arith, remove-active id jobs)

pub remove-le : (id : String) (jobs : List Schedule) → length (remove id jobs) ≤ length jobs
unfolding remove
remove-le id [] = omega arith
remove-le id (x ∷ jobs) = ground (arith, remove-le id jobs)

pub In-remove :
    (id x : String) (jobs : List Schedule) → In x (ids (remove id jobs)) → In x (ids jobs)
unfolding remove
In-remove id x [] m = m
In-remove id x (j ∷ jobs) m = split (j.schedule_id == id) m (In-remove id x jobs)
  where
    split :
        (b : Bool)
        → In x (ids (elim b [ true ↦ jobs | false ↦ j ∷ remove id jobs ]))
        → (In x (ids (remove id jobs)) → In x (ids jobs))
        → In x (ids (j ∷ jobs))
    split true k ih = inr k
    split false (inl e) ih = inl e
    split false (inr k) ih = inr (ih k)

pub remove-Distinct :
    (id : String) (jobs : List Schedule) → Distinct (ids jobs) → Distinct (ids (remove id jobs))
unfolding remove
remove-Distinct id [] d = d
remove-Distinct id (j ∷ jobs) d =
    split (j.schedule_id == id) (remove-Distinct id jobs d.1) (In-remove id j.schedule_id jobs)
  where
    split :
        (b : Bool)
        → Distinct (ids (remove id jobs))
        → (In j.schedule_id (ids (remove id jobs)) → In j.schedule_id (ids jobs))
        → Distinct (ids (elim b [ true ↦ jobs | false ↦ j ∷ remove id jobs ]))
    split true e ih = d.1
    split false e ih = (λ m. d.0 (ih m), e)

-- A key that is there keeps the size.
pub put-length :
    (new : Schedule) (jobs : List Schedule) (j : Schedule)
    → find new.schedule_id jobs ≡ some j
    → length (put new jobs) ≡ length jobs
unfolding find put
put-length new [] j h = absurd (cc)
put-length new (x ∷ jobs) j h = ground (arith, put-length new jobs j)

pub put-active :
    (new : Schedule) (jobs : List Schedule) (j : Schedule)
    → find new.schedule_id jobs ≡ some j
    → active (put new jobs) + weight j.state ≡ active jobs + weight new.state
unfolding find put active
put-active new [] j h = absurd (cc)
put-active new (x ∷ jobs) j h = ground (arith, put-active new jobs j)

pub put-length-le :
    (new : Schedule) (jobs : List Schedule) → length (put new jobs) ≤ length jobs + 1
unfolding put
put-length-le new [] = omega arith
put-length-le new (x ∷ jobs) = ground (arith, put-length-le new jobs)

pub put-active-le :
    (new : Schedule) (jobs : List Schedule) → active (put new jobs) ≤ active jobs + 1
unfolding put active
put-active-le new [] = ground arith
put-active-le new (x ∷ jobs) = ground (arith, put-active-le new jobs)

pub In-put :
    (new : Schedule) (x : String) (jobs : List Schedule)
    → In x (ids (put new jobs))
    → In x (ids jobs) ⊎ (x ≡ new.schedule_id)
unfolding put
In-put new x [] m = elim m [ inl e ↦ inr e | inr k ↦ inl k ]
In-put new x (j ∷ jobs) m = split (j.schedule_id == new.schedule_id) m (In-put new x jobs)
  where
    split :
        (b : Bool)
        → In x (ids (elim b [ true ↦ new ∷ jobs | false ↦ j ∷ put new jobs ]))
        → (In x (ids (put new jobs)) → In x (ids jobs) ⊎ (x ≡ new.schedule_id))
        → In x (ids (j ∷ jobs)) ⊎ (x ≡ new.schedule_id)
    split true (inl e) ih = inr e
    split true (inr k) ih = inl (inr k)
    split false (inl e) ih = inl (inl e)
    split false (inr k) ih = elim (ih k) [ inl a ↦ inl (inr a) | inr b ↦ inr b ]

pub put-Distinct :
    (new : Schedule) (jobs : List Schedule) → Distinct (ids jobs) → Distinct (ids (put new jobs))
unfolding put
put-Distinct new [] d = (λ m. m, tt)
put-Distinct new (j ∷ jobs) d =
    split (j.schedule_id == new.schedule_id) refl (put-Distinct new jobs d.1)
      (In-put new j.schedule_id jobs)
  where
    split :
        (b : Bool)
        → (j.schedule_id == new.schedule_id) ≡ b
        → Distinct (ids (put new jobs))
        → (In j.schedule_id (ids (put new jobs))
            → In j.schedule_id (ids jobs) ⊎ (j.schedule_id ≡ new.schedule_id))
        → Distinct (ids (elim b [ true ↦ new ∷ jobs | false ↦ j ∷ put new jobs ]))
    split true e ih k = (
      λ m. d.0 (subst (λ x. In x (ids jobs)) (sym ((eq_iff j.schedule_id new.schedule_id).0 e)) m),
      d.1,
    )
    split false e ih k = (
      λ m. elim (k m) [ inl a ↦ d.0 a | inr q ↦ cc ((eq_iff j.schedule_id new.schedule_id).1 q) ],
      ih,
    )
