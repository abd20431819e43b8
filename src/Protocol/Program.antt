-- ===== src/Protocol/Program.antt =====
-- protocol.py: `validate_program`, its stages in the order of the source.
use llm_wiki_chrome.Prelude.{
  String, len, not, ◌||◌, ◌&&◌, List, [], ◌∷◌, ◌==◌, ltb, length, all, unique, subset, is_empty,
  if◌then◌else◌,
}
use llm_wiki_chrome.Result.{Result, ok, err, protocol_error, raise_if, checked, ◌>>=◌, ◌>>◌}
use llm_wiki_chrome.Text.{is_identifier, is_program_identifier, is_private_field, is_sha256}
use llm_wiki_chrome.Json.{
  Value, Fields, str, arr, obj, nil, to_list, get, has, is_str, str_and, is_text, texts, member,
}
use llm_wiki_chrome.Runtime.{Runtime, to_str}
use llm_wiki_chrome.Protocol.Names.{
  browser_protocol, max_program_bytes, top_level_keys, public_result_fields,
}
use llm_wiki_chrome.Protocol.Checks.{
  reject_unknown_keys, bounded_string, check_forbidden_keys, canonical_program_sha256,
}
use llm_wiki_chrome.Protocol.Actions.{iter_actions, max_levels}
use llm_wiki_chrome.Protocol.Target.{validate_target, Limits, validate_limits, number_of}
use llm_wiki_chrome.Protocol.Action.{validate_action}
use llm_wiki_chrome.Protocol.Order.{fields_of, op_of, check_order}

-- `value.get(key, default)`
abbrev pub get_or : String → Value → Fields → Value
get_or key default fs = if has key fs then get key fs else default

unfoldable pub check_driver : Runtime → Value → Result (Unit {0})
check_driver r (obj driver) = do
  reject_unknown_keys driver ("id" ∷ "version" ∷ [])
  raise_if (not (is_identifier (to_str r (get_or "id" (str "") driver))))
      (protocol_error "driver requires a stable lowercase ID")
  checked (bounded_string is_program_identifier (get "version" driver))
check_driver r _ = err (protocol_error "driver must be an object")

unfoldable pub check_header : Runtime → Fields → Result (Unit {0})
check_header r fs = do
  raise_if (not (is_text browser_protocol (get "protocol" fs)))
      (protocol_error "unsupported browser executor protocol")
  checked (bounded_string is_program_identifier (get "program_id" fs))
  raise_if (not (is_sha256 (to_str r (get_or "plan_sha256" (str "") fs))))
      (protocol_error "plan_sha256 must be lowercase hexadecimal SHA-256")
  raise_if (not (is_sha256 (to_str r (get_or "program_sha256" (str "") fs))))
      (protocol_error "program_sha256 must be lowercase hexadecimal SHA-256")
  check_driver r (get "driver" fs)
  known ← member (get "capability" fs) ("read" ∷ "mutation" ∷ [])
  raise_if (not known) (protocol_error "capability must be read or mutation")
  validate_target r (get "target" fs)

unfoldable pub validate_slots : Value → Result (List String)
validate_slots (arr vs) = do
  raise_if (ltb 32 (length (to_list vs)) || not (all (str_and is_private_field) (to_list vs)))
      (protocol_error "private slot names must be non-empty strings")
  raise_if (not (unique (texts (to_list vs))))
      (protocol_error "private_slots must be a unique array")
  ok (texts (to_list vs))
validate_slots _ = err (protocol_error "private_slots must be a unique array")

unfoldable pub flatten_actions : Limits → Value → Result (List Fields)
flatten_actions limits (arr vs) = do
  raise_if (is_empty (to_list vs)) (protocol_error "actions must be a non-empty array")
  flat ← iter_actions max_levels (to_list vs)
  raise_if (ltb limits.max_actions (length flat)) (protocol_error "program exceeds max_actions")
  ok flat
flatten_actions limits _ = err (protocol_error "actions must be a non-empty array")

unfoldable pub check_public_fields : Value → Result (Unit {0})
check_public_fields (arr vs) = do
  raise_if (not (all is_str (to_list vs)) || not (subset (texts (to_list vs)) public_result_fields))
      (protocol_error "result requests an unsafe public field")
  raise_if (not (unique (texts (to_list vs))))
      (protocol_error "result requests an unsafe public field")
check_public_fields _ = err (protocol_error "result requests an unsafe public field")

unfoldable pub private_names : Value → Result (List String)
private_names (arr vs) = do
  raise_if (ltb 32 (length (to_list vs)) || not (all (str_and is_private_field) (to_list vs)))
      (protocol_error "private result fields must be named strings")
  raise_if (not (unique (texts (to_list vs))))
      (protocol_error "private result fields must be named strings")
  ok (texts (to_list vs))
private_names _ = err (protocol_error "private result fields must be named strings")

-- The private result fields that the program declares.
unfoldable pub validate_result : Value → Result (List String)
validate_result (obj result) = do
  reject_unknown_keys result ("public_fields" ∷ "private_fields" ∷ [])
  check_public_fields (get_or "public_fields" (arr nil) result)
  private_names (get_or "private_fields" (arr nil) result)
validate_result _ = err (protocol_error "result must be an object")

unfoldable pub check_actions :
    Runtime
    → (slots results : List String) (target : Fields) → Limits
    → List Fields
    → Result (Unit {0})
check_actions r slots results target limits [] = ok tt
check_actions r slots results target limits (action ∷ actions) =
    validate_action r slots results target action
    >> (raise_if
          (op_of action == "collect_ax_by_scrolling"
            && ltb limits.max_repeat (number_of (get "max_scrolls" action)))
          (protocol_error "scrolling collection exceeds max_repeat")
        >> check_actions r slots results target limits actions)

unfoldable pub validate_fields : Runtime → Fields → Result Value
validate_fields r fs = do
  raise_if (ltb max_program_bytes (len (r.dumps (obj fs)))) (protocol_error "program is too large")
  reject_unknown_keys fs top_level_keys
  check_forbidden_keys r (obj fs)
  check_header r fs
  limits ← validate_limits (get "limits" fs)
  slots ← validate_slots (get_or "private_slots" (arr nil) fs)
  flat ← flatten_actions limits (get "actions" fs)
  private ← validate_result (get "result" fs)
  check_actions r slots private (fields_of (get "target" fs)) limits flat
  check_order fs flat private
  raise_if (not (is_text (canonical_program_sha256 r fs) (get "program_sha256" fs)))
      (protocol_error "program_sha256 does not match the canonical program")
  ok (obj fs)

unfoldable pub validate_program : Runtime → Value → Result Value
unfolding validate_fields
validate_program r (obj fs) = validate_fields r fs
validate_program r _ = err (protocol_error "program must be an object")
