-- ===== src/Protocol/Accepted.antt =====
-- What a program that `validate_program` returns has passed, stage by stage.
use llm_wiki_chrome.Prelude.{arith, length, ◌≤◌, String, ◌≡◌, false, not, List, len, ltb, subset}
use llm_wiki_chrome.Result.{ok}
use llm_wiki_chrome.Json.{items_of, Value, Fields, arr, obj, nil, get, is_text, keys}
use llm_wiki_chrome.Runtime.{Runtime}
use llm_wiki_chrome.Protocol.Names.{top_level_keys, max_program_bytes}
use llm_wiki_chrome.Protocol.Checks.{
  reject_unknown_keys, check_forbidden_keys, canonical_program_sha256,
}
use llm_wiki_chrome.Protocol.Actions.{iter_actions, max_levels}
use llm_wiki_chrome.Protocol.Target.{Limits, validate_limits}
use llm_wiki_chrome.Protocol.Order.{fields_of, check_order}
use llm_wiki_chrome.Protocol.Program.{
  get_or, check_header, validate_slots, flatten_actions, validate_result, check_actions,
  validate_fields, validate_program,
}

pub record Accepted (r : Runtime) (fs : Fields) : Type 0 where
  pub limits : Limits
  pub slots : List String
  pub flat : List Fields
  pub private : List String
  pub size_ok : ltb max_program_bytes (len (r.dumps (obj fs))) ≡ false
  pub keys_ok : not (subset (keys fs) top_level_keys) ≡ false
  pub forbidden_ok : check_forbidden_keys r (obj fs) ≡ ok tt
  pub header_ok : check_header r fs ≡ ok tt
  pub limits_ok : validate_limits (get "limits" fs) ≡ ok limits
  pub slots_ok : validate_slots (get_or "private_slots" (arr nil) fs) ≡ ok slots
  pub flat_ok : flatten_actions limits (get "actions" fs) ≡ ok flat
  pub private_ok : validate_result (get "result" fs) ≡ ok private
  pub actions_ok : check_actions r slots private (fields_of (get "target" fs)) limits flat ≡ ok tt
  pub order_ok : check_order fs flat private ≡ ok tt
  pub hash_ok : not (is_text (canonical_program_sha256 r fs) (get "program_sha256" fs)) ≡ false

pub validate_fields-Accepted :
    (r : Runtime) (fs : Fields) (v : Value)
    → validate_fields r fs ≡ ok v
    → Accepted r fs × (v ≡ obj fs)
unfolding validate_fields reject_unknown_keys
validate_fields-Accepted r fs v h = ground arith

-- The fields of the program, and the program that is returned.
pub validate_program-Accepted :
    (r : Runtime) (fs : Fields) (v : Value)
    → validate_program r (obj fs) ≡ ok v
    → Accepted r fs × (v ≡ obj fs)
unfolding validate_program
validate_program-Accepted r fs v h = validate_fields-Accepted r fs v h

-- The program's own list of actions.
abbrev pub actions_of : Fields → List Value
actions_of fs = items_of (get "actions" fs)

pub flatten_actions-eq :
    (limits : Limits) (v : Value) (flat : List Fields)
    → flatten_actions limits v ≡ ok flat
    → (iter_actions max_levels (items_of v) ≡ ok flat) × (length flat ≤ limits.max_actions)
unfolding flatten_actions
flatten_actions-eq limits v flat h = ground arith

pub Accepted-flat :
    {r : Runtime} {fs : Fields} (a : Accepted r fs) (flat : List Fields)
    → iter_actions max_levels (actions_of fs) ≡ ok flat
    → flat ≡ a.flat
Accepted-flat a flat h = cc (h, (flatten_actions-eq a.limits _ a.flat a.flat_ok).0)

pub validate_program-same : (r : Runtime) (p v : Value) → validate_program r p ≡ ok v → v ≡ p
unfolding validate_program
validate_program-same r (obj fs) v h = (validate_fields-Accepted r fs v h).1
validate_program-same r _ v h = absurd (cc)
