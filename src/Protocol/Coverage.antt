-- ===== src/Protocol/Coverage.antt =====
-- Every action of the nest is visited, so the walk visits exactly the nest.
use mathlib.Core.Path.{subst}
use llm_wiki_chrome.Prelude.{
  ℕ, zero, suc, ◌<◌, ◌≡◌, ◌↔◌, ◌∙◌, refl, ◌⊎◌, inl, inr, true, List, [], ◌∷◌, ◌++◌, In,
}
use llm_wiki_chrome.Result.{Result, ok}
use llm_wiki_chrome.Json.{Value, Items, Fields, arr, obj, to_list, get, is_text}
use llm_wiki_chrome.Sets.{append-In}
use llm_wiki_chrome.Protocol.Walk.{
  Nested, on_level, in_branch, each_branch-cons, each_action-cons, nested_actions-cases,
  iter_actions_sound,
}
use llm_wiki_chrome.Protocol.Actions.{each_branch, nested_actions, each_action, iter_actions}

module _ (deeper : List Value → Result (List Fields)) where
  each_branch_complete :
      (branch : Items) (branches : List Value) (flat : List Fields)
      → each_branch deeper branches ≡ ok flat
      → In (arr branch) branches
      → (inner : List Fields) × (deeper (to_list branch) ≡ ok inner)
        × ((action : Fields) → In action inner → In action flat)
  unfolding each_branch
  each_branch_complete branch [] flat h m = elim m [ ]
  each_branch_complete branch (arr vs ∷ branches) flat h m =
      let (inner, others, first, rest, q) = each_branch-cons deeper vs branches flat h in
      elim m [
        | inl e ↦
            (inner, rw (same e) first, λ action k. rw q (append-In action inner others (inl k)))
        | inr k ↦
            let (found, walked, inside) = each_branch_complete branch branches others rest k in
            (
              found,
              walked,
              λ action j. rw q (append-In action inner others (inr (inside action j))),
            )
      ]
    where
      same : arr branch ≡ arr vs → branch ≡ vs
      same e = cc
  each_branch_complete branch (_ ∷ branches) flat h m = absurd (cc)

  nested_actions_complete :
      (parent : Fields) (branches branch : Items) (flat : List Fields)
      → nested_actions deeper parent ≡ ok flat
      → is_text "first_success" (get "op" parent) ≡ true
      → get "branches" parent ≡ arr branches
      → In (arr branch) (to_list branches)
      → (inner : List Fields) × (deeper (to_list branch) ≡ ok inner)
        × ((action : Fields) → In action inner → In action flat)
  nested_actions_complete parent branches branch flat h op q m =
      elim (nested_actions-cases deeper parent flat h) [
        | inl (_, other) ↦ absurd (cc)
        | inr (_, found, p, each) ↦
            each_branch_complete branch (to_list found) flat each
              (subst (λ b. In (arr branch) (to_list b)) (same found p) m)
      ]
    where
      same : (found : Items) → get "branches" parent ≡ arr found → branches ≡ found
      same found p = cc

  each_action_complete :
      (vs : List Value) (flat : List Fields) (parent : Fields)
      → each_action deeper vs ≡ ok flat
      → In (obj parent) vs
      → (inner : List Fields) × (nested_actions deeper parent ≡ ok inner)
        × ((action : Fields) → (action ≡ parent) ⊎ In action inner → In action flat)
  unfolding each_action
  each_action_complete [] flat parent h m = elim m [ ]
  each_action_complete (obj first ∷ vs) flat parent h m =
      let (inner, others, nested, rest, q) = each_action-cons deeper first vs flat h in
      elim m [
        | inl e ↦
            (inner, rw (same e) nested, λ action k. rw q (place action inner others (same e) k))
        | inr k ↦
            let (found, walked, inside) = each_action_complete vs others parent rest k in
            (
              found,
              walked,
              λ action j. rw q (inr (append-In action inner others (inr (inside action j)))),
            )
      ]
    where
      same : obj parent ≡ obj first → parent ≡ first
      same e = cc

      place :
          (action : Fields) (inner others : List Fields)
          → parent ≡ first
          → (action ≡ parent) ⊎ In action inner
          → In action (first ∷ (inner ++ others))
      place action inner others e (inl k) = inl (k ∙ e)
      place action inner others e (inr k) = inr (append-In action inner others (inl k))
  each_action_complete (_ ∷ vs) flat parent h m = absurd (cc)

-- Every action of the nest is visited.
pub iter_actions_complete :
    (levels : ℕ) (vs : List Value) (flat : List Fields) (depth : ℕ) (action : Fields)
    → iter_actions levels vs ≡ ok flat
    → Nested vs depth action
    → In action flat
unfolding iter_actions
iter_actions_complete zero vs flat depth action h n = absurd (cc)
iter_actions_complete (suc levels) vs flat zero action h (on_level m) =
    let (inner, walked, inside) = each_action_complete (iter_actions levels) vs flat action h m in
    inside action (inl refl)
iter_actions_complete (suc levels) vs flat (suc depth) action h
      (in_branch parent branches branch m op q among n) =
    let (inner, walked, inside) = each_action_complete (iter_actions levels) vs flat parent h m in
    let (found, deep, inside_branch) =
      nested_actions_complete (iter_actions levels) parent branches branch inner walked op q
        among in
    inside action (
      inr (
        inside_branch action
          (iter_actions_complete levels (to_list branch) found depth action deep n)))

-- The walk visits an action exactly when it stands in the nest, which is then at most so deep.
pub iter_actions_iff :
    (levels : ℕ) (vs : List Value) (flat : List Fields) (action : Fields)
    → iter_actions levels vs ≡ ok flat
    → In action flat ↔ ((depth : ℕ) × (depth < levels) × Nested vs depth action)
iter_actions_iff levels vs flat action h = (
  iter_actions_sound levels vs flat action h,
  λ (depth, small, n). iter_actions_complete levels vs flat depth action h n,
)
