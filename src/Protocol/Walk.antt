-- ===== src/Protocol/Walk.antt =====
-- `iter_actions` visits every action of the nest and no other.
use mathlib.Core.Path.{subst}
use llm_wiki_chrome.Prelude.{
  ℕ, zero, suc, ◌<◌, ◌≡◌, refl, ◌⊎◌, inl, inr, true, false, List, [], ◌∷◌, ◌++◌, arith, ap, In,
}
use llm_wiki_chrome.Sets.{In-append}
use llm_wiki_chrome.Result.{Result, ok}
use llm_wiki_chrome.Json.{Value, Items, Fields, arr, obj, to_list, get, is_text}
use llm_wiki_chrome.Protocol.Actions.{
  each_branch, branch_actions, nested_actions, each_action, iter_actions,
}

-- The action stands in the nest, so many branches deep.
pub data Nested : List Value → ℕ → Fields → Type 0 where
  on_level : {vs : List Value} {action : Fields} → In (obj action) vs → Nested vs 0 action
  in_branch :
      {vs : List Value} {depth : ℕ} {action : Fields} (parent : Fields) (branches branch : Items)
      → In (obj parent) vs
      → is_text "first_success" (get "op" parent) ≡ true
      → get "branches" parent ≡ arr branches
      → In (arr branch) (to_list branches)
      → Nested (to_list branch) depth action
      → Nested vs (suc depth) action

module _ (deeper : List Value → Result (List Fields)) where
  each_branch-nil : (flat : List Fields) → each_branch deeper [] ≡ ok flat → flat ≡ []
  unfolding each_branch
  each_branch-nil flat h = ground arith

  each_action-nil : (flat : List Fields) → each_action deeper [] ≡ ok flat → flat ≡ []
  unfolding each_action
  each_action-nil flat h = ground arith

  pub each_branch-cons :
      (vs : Items) (branches : List Value) (flat : List Fields)
      → each_branch deeper (arr vs ∷ branches) ≡ ok flat
      → (inner : List Fields) × (others : List Fields) × (deeper (to_list vs) ≡ ok inner)
        × (each_branch deeper branches ≡ ok others)
        × (flat ≡ inner ++ others)
  unfolding each_branch
  each_branch-cons vs branches flat h = ground arith

  pub each_action-cons :
      (parent : Fields) (actions : List Value) (flat : List Fields)
      → each_action deeper (obj parent ∷ actions) ≡ ok flat
      → (inner : List Fields) × (others : List Fields) × (nested_actions deeper parent ≡ ok inner)
        × (each_action deeper actions ≡ ok others)
        × (flat ≡ parent ∷ (inner ++ others))
  unfolding each_action
  each_action-cons parent actions flat h = ground arith

  pub nested_actions-cases :
      (parent : Fields) (flat : List Fields)
      → nested_actions deeper parent ≡ ok flat
      → ((flat ≡ []) × (is_text "first_success" (get "op" parent) ≡ false))
        ⊎ ((is_text "first_success" (get "op" parent) ≡ true)
            × (branches : Items) × (get "branches" parent ≡ arr branches)
            × (each_branch deeper (to_list branches) ≡ ok flat))
  unfolding nested_actions branch_actions
  nested_actions-cases parent flat h = ground arith

  -- What is known of `deeper`, for actions of the nest below.
  module _ (levels : ℕ) (action : Fields) where
    abbrev Sound : Type 0
    Sound =
        (vs : List Value) (flat : List Fields)
        → deeper vs ≡ ok flat
        → In action flat
        → (depth : ℕ) × (depth < levels) × Nested vs depth action

    each_branch_sound :
        Sound
        → (branches : List Value) (flat : List Fields) → each_branch deeper branches ≡ ok flat
        → In action flat
        → (branch : Items) × In (arr branch) branches
          × (depth : ℕ) × (depth < levels)
          × Nested (to_list branch) depth action
    unfolding each_branch
    each_branch_sound below [] flat h m =
        absurd (subst (λ f. In action f) (each_branch-nil flat h) m)
    each_branch_sound below (arr vs ∷ branches) flat h m =
        let (inner, others, first, rest, q) = each_branch-cons vs branches flat h in
        elim (In-append action inner others (subst (λ f. In action f) q m)) [
          | inl k ↦
              let (depth, small, n) = below (to_list vs) inner first k in
              (vs, inl refl, depth, small, n)
          | inr k ↦
              let (branch, place, depth, small, n) =
                each_branch_sound below branches others rest k in
              (branch, inr place, depth, small, n)
        ]
    each_branch_sound below (_ ∷ branches) flat h m = absurd (cc)

    nested_actions_sound :
        Sound
        → (vs : List Value) (parent : Fields) (flat : List Fields) → In (obj parent) vs
        → nested_actions deeper parent ≡ ok flat
        → In action flat
        → (depth : ℕ) × (depth < suc levels) × Nested vs depth action
    nested_actions_sound below vs parent flat place h m =
        elim (nested_actions-cases parent flat h) [
          | inl (q, _) ↦ absurd (subst (λ f. In action f) q m)
          | inr (op, branches, q, each) ↦
              let (branch, among, depth, small, n) =
                each_branch_sound below (to_list branches) flat each m in
              (suc depth, omega arith, in_branch parent branches branch place op q among n)
        ]

    each_action_sound :
        Sound
        → (all_actions : List Value) (vs : List Value) (flat : List Fields)
        → ((w : Value) → In w vs → In w all_actions)
        → each_action deeper vs ≡ ok flat
        → In action flat
        → (depth : ℕ) × (depth < suc levels) × Nested all_actions depth action
    unfolding each_action
    each_action_sound below all_actions [] flat sub h m =
        absurd (subst (λ f. In action f) (each_action-nil flat h) m)
    each_action_sound below all_actions (obj parent ∷ vs) flat sub h m =
        let (inner, others, first, rest, q) = each_action-cons parent vs flat h in
        elim (subst (λ f. In action f) q m) [
          | inl e ↦ (0, omega arith, on_level (sub (obj action) (inl (ap obj e))))
          | inr k ↦ elim (In-append action inner others k) [
            | inl j ↦
                nested_actions_sound below all_actions parent inner (sub (obj parent) (inl refl))
                  first j
            | inr j ↦ each_action_sound below all_actions vs others (λ w p. sub w (inr p)) rest j
          ]
        ]
    each_action_sound below all_actions (_ ∷ vs) flat sub h m = absurd (cc)

-- What the walk visits stands in the nest, fewer branches deep than there are levels.
pub iter_actions_sound :
    (levels : ℕ) (vs : List Value) (flat : List Fields) (action : Fields)
    → iter_actions levels vs ≡ ok flat
    → In action flat
    → (depth : ℕ) × (depth < levels) × Nested vs depth action
unfolding iter_actions
iter_actions_sound zero vs flat action h m = absurd (cc)
iter_actions_sound (suc levels) vs flat action h m =
    each_action_sound (iter_actions levels) levels action
      (λ ws f k n. iter_actions_sound levels ws f action k n) vs vs flat (λ w p. p) h m
