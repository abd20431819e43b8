-- ===== src/Protocol/Checked.antt =====
-- What an action of an accepted program has passed: each group of the checks of `_validate_action`.
use llm_wiki_chrome.Prelude.{
  String, ◌≡◌, sym, inl, inr, true, false, ◌&&◌, ◌==◌, ltb, List, [], ◌∷◌, arith, In, contains,
}
use mathlib.Core.Path.{subst}
use llm_wiki_chrome.Sets.{contains-In}
use llm_wiki_chrome.Result.{ok}
use llm_wiki_chrome.Json.{Value, Fields, str, obj, get, member}
use llm_wiki_chrome.Runtime.{Runtime}
use llm_wiki_chrome.Protocol.Names.{allowed_operations}
use llm_wiki_chrome.Protocol.Actions.{iter_actions, max_levels}
use llm_wiki_chrome.Protocol.Target.{Limits, number_of}
use llm_wiki_chrome.Protocol.Guards.{text_of}
use llm_wiki_chrome.Protocol.Interaction.{
  check_navigation, check_locators, check_waits_and_keys, check_slots, check_dialogs,
}
use llm_wiki_chrome.Protocol.Extraction.{
  check_extraction, check_screenshots, check_measurements, check_scrolling,
  check_waits_and_downloads, check_captures,
}
use llm_wiki_chrome.Protocol.Action.{check_operation, validate_action}
use llm_wiki_chrome.Protocol.Order.{fields_of, op_of}
use llm_wiki_chrome.Protocol.Program.{check_actions, validate_program}
use llm_wiki_chrome.Protocol.Accepted.{
  Accepted, validate_program-Accepted, actions_of, Accepted-flat,
}

check_actions-In :
    (r : Runtime) (slots results : List String) (target : Fields) (limits : Limits)
    (flat : List Fields) (action : Fields)
    → check_actions r slots results target limits flat ≡ ok tt
    → In action flat
    → (validate_action r slots results target action ≡ ok tt)
      × ((op_of action == "collect_ax_by_scrolling"
            && ltb limits.max_repeat (number_of (get "max_scrolls" action)))
          ≡ false)
unfolding check_actions
check_actions-In r slots results target limits [] action h m = elim m [ ]
check_actions-In r slots results target limits (first ∷ rest) action h (inl e) =
    subst
      (λ a.
        (validate_action r slots results target a ≡ ok tt)
        × ((op_of a == "collect_ax_by_scrolling"
              && ltb limits.max_repeat (number_of (get "max_scrolls" a)))
            ≡ false))
      (sym e) (ground arith)
check_actions-In r slots results target limits (first ∷ rest) action h (inr m) =
    check_actions-In r slots results target limits rest action (ground arith) m

-- The checks of one action, in groups.
pub record Checked (r : Runtime) (slots results : List String) (target : Fields) (op : String)
    (action : Fields) : Type 0 where
  pub navigation : check_navigation r slots results target op action ≡ ok tt
  pub locators : check_locators r slots results target op action ≡ ok tt
  pub waits_and_keys : check_waits_and_keys r slots results target op action ≡ ok tt
  pub slots_declared : check_slots r slots results target op action ≡ ok tt
  pub extraction : check_extraction r slots results target op action ≡ ok tt
  pub screenshots : check_screenshots r slots results target op action ≡ ok tt
  pub measurements : check_measurements r slots results target op action ≡ ok tt
  pub scrolling : check_scrolling r slots results target op action ≡ ok tt
  pub waits_and_downloads : check_waits_and_downloads r slots results target op action ≡ ok tt
  pub dialogs : check_dialogs r slots results target op action ≡ ok tt
  pub captures : check_captures r slots results target op action ≡ ok tt

module _ (r : Runtime) (slots results : List String) (target action : Fields) where
  check_operation-Checked :
      (op : String)
      → check_operation r slots results target action op ≡ ok tt
      → Checked r slots results target op action
  unfolding check_operation
  check_operation-Checked op h = ground arith

  member-str :
      (v : Value) (names : List String)
      → member v names ≡ ok true
      → (v ≡ str (text_of v)) × (contains names (text_of v) ≡ true)
  unfolding member text_of
  member-str v names h = ground arith

  validate_action-steps :
      validate_action r slots results target action ≡ ok tt
      → (member (get "op" action) allowed_operations ≡ ok true)
        × (check_operation r slots results target action (op_of action) ≡ ok tt)
  unfolding validate_action
  validate_action-steps h = ground arith

  pub validate_action-Checked :
      validate_action r slots results target action ≡ ok tt
      → In (op_of action) allowed_operations
        × (get "op" action ≡ str (op_of action))
        × Checked r slots results target (op_of action) action
  validate_action-Checked h =
      let (found, rest) = validate_action-steps h in
      let (text, known) = member-str (get "op" action) allowed_operations found in
      (
        contains-In allowed_operations (op_of action) known,
        text,
        check_operation-Checked (op_of action) rest,
      )

module _ (r : Runtime) (fs : Fields) (v : Value)
    (accepted : validate_program r (obj fs) ≡ ok v) where
  abbrev pub facts : Accepted r fs
  facts = (validate_program-Accepted r fs v accepted).0

  pub validate_program-action :
      (flat : List Fields) (action : Fields)
      → iter_actions max_levels (actions_of fs) ≡ ok flat
      → In action flat
      → (validate_action r facts.slots facts.private (fields_of (get "target" fs)) action ≡ ok tt)
        × ((op_of action == "collect_ax_by_scrolling"
              && ltb facts.limits.max_repeat (number_of (get "max_scrolls" action)))
            ≡ false)
  validate_program-action flat action walk m =
      check_actions-In r facts.slots facts.private (fields_of (get "target" fs)) facts.limits
        facts.flat action facts.actions_ok
        (subst (λ f. In action f) (Accepted-flat facts flat walk) m)

  pub validate_program-Checked :
      (flat : List Fields) (action : Fields)
      → iter_actions max_levels (actions_of fs) ≡ ok flat
      → In action flat
      → In (op_of action) allowed_operations
        × (get "op" action ≡ str (op_of action))
        × Checked r facts.slots facts.private (fields_of (get "target" fs)) (op_of action) action
  validate_program-Checked flat action walk m =
      validate_action-Checked r facts.slots facts.private (fields_of (get "target" fs)) action
        (validate_program-action flat action walk m).0
