-- ===== src/Protocol/Actions.antt =====
-- protocol.py: `iter_actions`. The depth that is left replaces the depth that is reached: five
-- levels are depths 0 to 4.
use llm_wiki_chrome.Prelude.{
  ℕ, zero, suc, not, List, [], ◌∷◌, ◌++◌, within, length, is_empty, if◌then◌else◌,
}
use llm_wiki_chrome.Result.{Result, ok, err, protocol_error, raise_if, ◌>>=◌, ◌>>◌}
use llm_wiki_chrome.Json.{Value, Fields, arr, obj, to_list, get, is_null, is_text}

-- One list of actions, `deeper` the walk one level down.
module _ (deeper : List Value → Result (List Fields)) where
  unfoldable pub each_branch : List Value → Result (List Fields)
  each_branch [] = ok []
  each_branch (arr vs ∷ branches) = do
    raise_if (is_empty (to_list vs))
        (protocol_error "first_success branches must be non-empty arrays")
    inner ← deeper (to_list vs)
    others ← each_branch branches
    ok (inner ++ others)
  each_branch (_ ∷ branches) =
      err (protocol_error "first_success branches must be non-empty arrays")

  unfoldable pub branch_actions : Value → Result (List Fields)
  branch_actions (arr vs) = do
    raise_if (not (within 1 4 (length (to_list vs))))
        (protocol_error "first_success requires one to four branches")
    each_branch (to_list vs)
  branch_actions _ = err (protocol_error "first_success requires one to four branches")

  unfoldable pub nested_actions : Fields → Result (List Fields)
  nested_actions action =
      if is_text "first_success" (get "op" action)
      then branch_actions (get "branches" action)
      else (do
        raise_if (not (is_null (get "branches" action)))
            (protocol_error "only first_success may contain branches")
        ok [])

  unfoldable pub each_action : List Value → Result (List Fields)
  each_action [] = ok []
  each_action (obj action ∷ actions) = do
    inner ← nested_actions action
    others ← each_action actions
    ok (action ∷ (inner ++ others))
  each_action (_ ∷ actions) = err (protocol_error "every action must be an object")

unfoldable pub iter_actions : (levels : ℕ) → List Value → Result (List Fields)
iter_actions zero actions = err (protocol_error "action nesting exceeds four levels")
iter_actions (suc levels) actions = each_action (iter_actions levels) actions

abbrev pub max_levels : ℕ
max_levels = 5
