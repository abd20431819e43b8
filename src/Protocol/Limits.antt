-- ===== src/Protocol/Limits.antt =====
-- The limits of an accepted program.
use llm_wiki_chrome.Prelude.{ℕ, ◌≤◌, ◌≡◌, true, eq_iff, List, arith, In, length, within_bounds}
use native.Mathlib.Nat.{le_trans}
use llm_wiki_chrome.Result.{ok}
use llm_wiki_chrome.Json.{Value, Fields, obj, get, int_within, int, pos, negsuc}
use llm_wiki_chrome.Runtime.{Runtime}
use llm_wiki_chrome.Protocol.Actions.{iter_actions, max_levels}
use llm_wiki_chrome.Protocol.Target.{Limits, validate_limits, number_of}
use llm_wiki_chrome.Protocol.Order.{fields_of, op_of}
use llm_wiki_chrome.Protocol.Program.{validate_program}
use llm_wiki_chrome.Protocol.Accepted.{Accepted, actions_of, Accepted-flat, flatten_actions-eq}
use llm_wiki_chrome.Protocol.Checked.{facts, validate_program-action}

-- The value is an integer in the range, and no Boolean.
pub data IntBetween (lo hi : ℕ) : Value → Type 0 where
  between : (n : ℕ) → lo ≤ n → n ≤ hi → IntBetween lo hi (int (pos n))

int_within-Between : (lo hi : ℕ) (v : Value) → int_within lo hi v ≡ true → IntBetween lo hi v
int_within-Between lo hi (int (pos n)) h =
    between n (within_bounds lo hi n h).0 (within_bounds lo hi n h).1
int_within-Between lo hi (int (negsuc n)) h = absurd (cc)
int_within-Between lo hi _ h = absurd (cc)

number-le : (lo hi : ℕ) (v : Value) → int_within lo hi v ≡ true → number_of v ≤ hi
unfolding number_of
number-le lo hi (int (pos n)) h = (within_bounds lo hi n h).1
number-le lo hi (int (negsuc n)) h = absurd (cc)
number-le lo hi _ h = absurd (cc)

validate_limits-parts :
    (v : Value) (limits : Limits)
    → validate_limits v ≡ ok limits
    → (int_within 1000 300000 (get "timeout_ms" (fields_of v)) ≡ true)
      × (int_within 1 200 (get "max_actions" (fields_of v)) ≡ true)
      × (int_within 1 20 (get "max_repeat" (fields_of v)) ≡ true)
      × (limits.max_actions ≡ number_of (get "max_actions" (fields_of v)))
      × (limits.max_repeat ≡ number_of (get "max_repeat" (fields_of v)))
unfolding validate_limits
validate_limits-parts (obj fs) limits h = ground arith
validate_limits-parts _ limits h = absurd (cc)

module _ (r : Runtime) (fs : Fields) (v : Value) (flat : List Fields)
    (accepted : validate_program r (obj fs) ≡ ok v)
    (walk : iter_actions max_levels (actions_of fs) ≡ ok flat) where
  abbrev all_facts : Accepted r fs
  all_facts = facts r fs v accepted

  -- The limits of an accepted program are integers in their ranges, the program has at most
  -- `max_actions` actions with those inside the branches, and so at most 200.
  pub validate_program-limits :
      IntBetween 1000 300000 (get "timeout_ms" (fields_of (get "limits" fs)))
      × IntBetween 1 200 (get "max_actions" (fields_of (get "limits" fs)))
      × IntBetween 1 20 (get "max_repeat" (fields_of (get "limits" fs)))
      × (length flat ≤ number_of (get "max_actions" (fields_of (get "limits" fs))))
      × (length flat ≤ 200)
  validate_program-limits =
      let (timeout, maximum, repeat, max_eq, repeat_eq) =
        validate_limits-parts (get "limits" fs) all_facts.limits all_facts.limits_ok in
      let fits : length flat ≤ number_of (get "max_actions" (fields_of (get "limits" fs))) =
        rw (Accepted-flat all_facts flat walk, ← max_eq)
          ((flatten_actions-eq all_facts.limits (get "actions" fs) all_facts.flat
            all_facts.flat_ok).1) in
      (
        int_within-Between _ _ _ timeout,
        int_within-Between _ _ _ maximum,
        int_within-Between _ _ _ repeat,
        fits,
        le_trans fits (number-le 1 200 (get "max_actions" (fields_of (get "limits" fs))) maximum),
      )

  -- A scrolling collection of an accepted program scrolls at most `max_repeat` times.
  validate_program-scrolls :
      (action : Fields)
      → In action flat
      → op_of action ≡ "collect_ax_by_scrolling"
      → number_of (get "max_scrolls" action)
        ≤ number_of (get "max_repeat" (fields_of (get "limits" fs)))
  validate_program-scrolls action among op =
      let parts = validate_limits-parts (get "limits" fs) all_facts.limits all_facts.limits_ok in
      rw (← parts.4) (
        ground (
          arith,
          eq_iff (op_of action) "collect_ax_by_scrolling",
          (validate_program-action r fs v accepted flat action walk among).1,
        ))
