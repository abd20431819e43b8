-- ===== src/Protocol/Boundary.antt =====
-- The mutation boundary of an accepted program.
use llm_wiki_chrome.Prelude.{
  ◌+◌, String, ◌≡◌, false, ◌==◌, eq_iff, List, [], ◌∷◌, ◌++◌, arith, count, contains, index, any,
  In, Bool-cases, inl, inr,
}
use llm_wiki_chrome.Sets.{In-contains, count_one_split, any-false}
use llm_wiki_chrome.Result.{ok}
use llm_wiki_chrome.Json.{Value, Fields, str, obj, get}
use llm_wiki_chrome.Runtime.{Runtime}
use llm_wiki_chrome.Protocol.Names.{mutation_only}
use llm_wiki_chrome.Protocol.Actions.{iter_actions, max_levels}
use llm_wiki_chrome.Protocol.Order.{
  operations, top_operations, drop, once, check_boundary, check_order,
}
use llm_wiki_chrome.Protocol.Program.{validate_program}
use llm_wiki_chrome.Protocol.Accepted.{
  Accepted, validate_program-Accepted, actions_of, Accepted-flat,
}

check_order-boundary :
    (fs : Fields) (flat : List Fields) (private : List String)
    → check_order fs flat private ≡ ok tt
    → check_boundary (get "capability" fs) (top_operations (get "actions" fs)) (operations flat)
      ≡ ok tt
unfolding check_order
check_order-boundary fs flat private h = ground arith

check_boundary-read :
    (top ops : List String)
    → check_boundary (str "read") top ops ≡ ok tt
    → any (contains mutation_only) ops ≡ false
unfolding check_boundary
check_boundary-read top ops h = ground (arith, eq_iff "read" "read")

check_boundary-mutation :
    (top ops : List String)
    → check_boundary (str "mutation") top ops ≡ ok tt
    → (count "before_mutation" ops ≡ 1)
      × (count "before_mutation" top ≡ 1)
      × (contains (drop (index "before_mutation" top + 1) top) "first_success" ≡ false)
unfolding check_boundary once
check_boundary-mutation top ops h =
    ground (arith, eq_iff "mutation" "mutation", eq_iff "mutation" "read")

-- The entries behind the first one of a list that is split there.
drop-split :
    (s : String) (before after : List String)
    → ¬ (In s before)
    → drop (index s (before ++ s ∷ after) + 1) (before ++ s ∷ after) ≡ after
unfolding drop index
drop-split s [] after out = ground (arith, eq_iff s s)
drop-split s (x ∷ before) after out = elim (Bool-cases (x == s)) [
  | inl e ↦ absurd (out (inl (ground (arith, eq_iff x s))))
  | inr e ↦ ground (arith, drop-split s before after (λ m. out (inr m)))
]

module _ (r : Runtime) (fs : Fields) (v : Value)
    (accepted : validate_program r (obj fs) ≡ ok v) where
  abbrev facts : Accepted r fs
  facts = (validate_program-Accepted r fs v accepted).0

  boundary_of :
      check_boundary
        (get "capability" fs)
        (top_operations (get "actions" fs))
        (operations facts.flat)
      ≡ ok tt
  boundary_of = check_order-boundary fs facts.flat facts.private facts.order_ok

  -- A program with capability "read" that is accepted has no mutating operation among its actions,
  -- those inside the branches included.
  pub validate_program-read_only :
      (flat : List Fields) (op : String)
      → iter_actions max_levels (actions_of fs) ≡ ok flat
      → get "capability" fs ≡ str "read"
      → In op (operations flat)
      → ¬ (In op mutation_only)
  validate_program-read_only flat op walk read m forbidden = ground (
    arith,
    In-contains mutation_only op forbidden,
    any-false (contains mutation_only) (operations flat) op none_forbidden m,
  )
    where
      none_forbidden : any (contains mutation_only) (operations flat) ≡ false
      none_forbidden =
          check_boundary-read (top_operations (get "actions" fs)) (operations flat)
            (rw (Accepted-flat facts flat walk, ← read) boundary_of)

  -- A program with capability "mutation" that is accepted has exactly one `before_mutation` among all
  -- its actions, it stands in the program's own list, and no `first_success` stands behind it there.
  pub validate_program-one_boundary :
      (flat : List Fields)
      → iter_actions max_levels (actions_of fs) ≡ ok flat
      → get "capability" fs ≡ str "mutation"
      → (count "before_mutation" (operations flat) ≡ 1)
        × (before : List String) × (after : List String) × (top_operations (get "actions" fs)
            ≡ before ++ "before_mutation" ∷ after)
        × ¬ (In "before_mutation" before)
        × ¬ (In "before_mutation" after)
        × ¬ (In "first_success" after)
  validate_program-one_boundary flat walk mutation =
      let (one, top_one, quiet) =
        check_boundary-mutation (top_operations (get "actions" fs)) (operations flat)
          (rw (Accepted-flat facts flat walk, ← mutation) boundary_of) in
      let (before, after, split, out_before, out_after) =
        count_one_split "before_mutation" (top_operations (get "actions" fs)) top_one in
      (
        one,
        before,
        after,
        split,
        out_before,
        out_after,
        λ m. ground (
          arith,
          In-contains after "first_success" m,
          drop-split "before_mutation" before after out_before,
        ),
      )
