-- ===== src/Collaboration/Schedules/Found.antt =====
-- What other schedules, and the making of room, leave of the entry that an id finds.
use mathlib.Core.Path.{subst}
use llm_wiki_chrome.Prelude.{
  ℕ, zero, suc, String, ◌≡◌, ◌≢◌, refl, sym, ◌∙◌, inl, inr, Bool, true, false, Option, none, some,
  List, [], ◌∷◌, ◌==◌, eq_iff, eq_refl, arith, In, Distinct, Bool-cases, leb, length,
}
use llm_wiki_chrome.Result.{Result, ok, err, collaboration_error}
use llm_wiki_chrome.Collaboration.Schedules.{
  scheduled, Schedule, max_active, max_retained, is_evictable, find, remove, put, active,
  first_evictable, make_room, admit_into, admit,
}
use llm_wiki_chrome.Collaboration.Schedules.Entries.{ids, remove-Distinct}

find-In :
    (id : String) (jobs : List Schedule) (j : Schedule) → find id jobs ≡ some j → In id (ids jobs)
unfolding find
find-In id [] j h = absurd (cc)
find-In id (x ∷ jobs) j h = elim (Bool-cases (x.schedule_id == id)) [
  | inl e ↦ inl (sym ((eq_iff x.schedule_id id).0 e))
  | inr e ↦ inr (find-In id jobs j (ground arith))
]

pub find-put-other :
    (id : String) (new : Schedule) (jobs : List Schedule)
    → new.schedule_id ≢ id
    → find id (put new jobs) ≡ find id jobs
unfolding find put
find-put-other id new [] n = ground (arith, eq_iff new.schedule_id id)
find-put-other id new (j ∷ jobs) n = ground (
  arith,
  eq_iff new.schedule_id id,
  eq_iff j.schedule_id id,
  eq_iff j.schedule_id new.schedule_id,
  find-put-other id new jobs n,
)

pub find-remove-other :
    (id x : String) (jobs : List Schedule) → x ≢ id → find id (remove x jobs) ≡ find id jobs
unfolding find remove
find-remove-other id x [] n = refl
find-remove-other id x (j ∷ jobs) n =
    ground (arith, eq_iff j.schedule_id x, eq_iff j.schedule_id id, find-remove-other id x jobs n)

-- The first schedule that may go is the one that its id finds.
evictable-find :
    (x : String) (jobs : List Schedule)
    → Distinct (ids jobs)
    → first_evictable jobs ≡ some x
    → (e : Schedule) × (find x jobs ≡ some e) × (is_evictable e.state ≡ true)
unfolding first_evictable find
evictable-find x [] d h = absurd (cc)
evictable-find x (j ∷ jobs) d h = elim (Bool-cases (is_evictable j.state)) [
  | inl e ↦ (j, ground (arith, eq_refl j.schedule_id), e)
  | inr e ↦
      let (k, q, may) = evictable-find x jobs d.1 (ground arith) in
      elim (Bool-cases (j.schedule_id == x)) [
        | inl same ↦ absurd (
            d.0 (
              subst (λ y. In y (ids jobs)) (sym ((eq_iff j.schedule_id x).0 same))
                (find-In x jobs k q)))
        | inr differ ↦ (k, ground arith, may)
      ]
]

module _ (id : String) (j : Schedule) (stays : is_evictable j.state ≡ false) where
  evictable-other :
      (x : String) (jobs : List Schedule)
      → Distinct (ids jobs)
      → find id jobs ≡ some j
      → first_evictable jobs ≡ some x
      → x ≢ id
  evictable-other x jobs d here h same =
      let (e, q, may) = evictable-find x jobs d h in
      let found : find id jobs ≡ some e = subst (λ y. find y jobs ≡ some e) same q in cc

  make_room-find :
      (fuel : ℕ) (jobs : List Schedule)
      → Distinct (ids jobs)
      → find id jobs ≡ some j
      → find id (make_room fuel jobs).0 ≡ some j
  unfolding make_room
  make_room-find zero jobs d here = here
  make_room-find (suc fuel) jobs d here =
      rooms (leb max_retained (length jobs)) (first_evictable jobs) λ x q.
        make_room-find fuel (remove x jobs) (remove-Distinct x jobs d)
          (find-remove-other id x jobs (evictable-other x jobs d here q) ∙ here)
    where
      loop : Bool → Option String → List Schedule × Result (Unit {0})
      loop b o = elim b [
        | false ↦ (jobs, ok tt)
        | true ↦ elim o [
          | none ↦ (
            jobs,
            err (collaboration_error "too many completed scheduled snapshots await retrieval"),
          )
          | some x ↦ make_room fuel (remove x jobs)
        ]
      ]

      rooms :
          (b : Bool) (o : Option String)
          → ((x : String) → o ≡ some x → find id (make_room fuel (remove x jobs)).0 ≡ some j)
          → find id (loop b o).0 ≡ some j
      rooms false o rest = here
      rooms true none rest = here
      rooms true (some x) rest = rest x refl

  pub admit-find :
      (x : String) (jobs : List Schedule)
      → x ≢ id
      → Distinct (ids jobs)
      → find id jobs ≡ some j
      → find id (admit x jobs).0 ≡ some j
  unfolding admit admit_into
  admit-find x jobs n d here = elim (Bool-cases (leb max_active (active jobs))) [
    | inl e ↦ rw e here
    | inr e ↦ rw e (
        entered (make_room (suc (length jobs)) jobs)
          (make_room-find (suc (length jobs)) jobs d here))
  ]
    where
      entered :
          (m : List Schedule × Result (Unit {0}))
          → find id m.0 ≡ some j
          → find id (admit_into x m).0 ≡ some j
      entered (left, ok u) k =
          find-put-other id (record { schedule_id = x; state = scheduled; result = none }) left n
          ∙ k
      entered (left, err e) k = k
