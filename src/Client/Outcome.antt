-- ===== src/Client/Outcome.antt =====
-- client.py: `_validate_private_values` and `_validate_result`. The program has passed
-- `validate_program`.
use llm_wiki_chrome.Prelude.{
  ℕ, String, len, Bool, not, ◌&&◌, ◌||◌, ◌==◌, Option, none, some, List, [], ◌∷◌, ltb, length, all,
  subset, same_set,
}
use llm_wiki_chrome.Result.{Result, ok, err, client_error, protocol_error, raise_if, ◌>>=◌, ◌>>◌}
use llm_wiki_chrome.Text.{is_identifier}
use llm_wiki_chrome.Json.{
  Value, Fields, null, str, arr, obj, end, nil, items_of, get, has, keys, values as values_of,
  is_str, is_bool, is_text, str_and, texts, member, int_within,
}
use llm_wiki_chrome.Runtime.{Runtime}
use llm_wiki_chrome.Protocol.Target.{number_of}
use llm_wiki_chrome.Protocol.Guards.{text_of}
use llm_wiki_chrome.Protocol.Order.{fields_of}
use llm_wiki_chrome.Protocol.Program.{get_or}

abbrev pub result_keys : List String
result_keys = "protocol" ∷ "type" ∷ "job_id" ∷ "status" ∷ "public" ∷ "private" ∷ "error" ∷ []

abbrev pub result_keys_without_error : List String
result_keys_without_error = "protocol" ∷ "type" ∷ "job_id" ∷ "status" ∷ "public" ∷ "private" ∷ []

abbrev pub is_small : Value → Bool
is_small v = str_and (λ s. not (ltb 16384 (len s))) v

-- `None` is the empty dictionary.
abbrev or_empty : Value → Value
or_empty null = obj end
or_empty v = v

unfoldable pub check_private_values : Runtime → Fields → Value → Result Fields
check_private_values r program (obj given) = do
  raise_if
      (not (same_set (keys given) (texts (items_of (get_or "private_slots" (arr nil) program)))))
      (protocol_error "private_values do not exactly match declared private slots")
  raise_if (not (all is_str (values_of given)))
      (protocol_error "private_values must contain strings")
  raise_if (not (all is_small (values_of given)))
      (protocol_error "private_values contains an oversized value")
  raise_if (ltb 262144 (len (r.dumps (obj given)))) (protocol_error "private_values is too large")
  ok given
check_private_values r program _ = err (protocol_error "private_values must be an object")

unfoldable pub validate_private_values : Runtime → Fields → Value → Result Fields
validate_private_values r program values = check_private_values r program (or_empty values)

-- The dictionary that `run` returns.
pub record Outcome : Type 0 where
  pub status : String
  pub public : Fields
  pub private : Fields
  pub error : Option String

-- `program["result"].get(key, [])`
abbrev pub permitted : String → Fields → List String
permitted key program = texts (items_of (get_or key (arr nil) (fields_of (get "result" program))))

abbrev pub max_actions_of : Fields → ℕ
max_actions_of program = number_of (get "max_actions" (fields_of (get "limits" program)))

unfoldable pub check_public :
    (program : Fields) (status : String) (public private : Fields) → Result (Unit {0})
check_public program status public private = do
  raise_if (has "status" public && not (is_text status (get "status" public)))
      (client_error "browser executor public status does not match")
  raise_if
      (has "action_count" public
        && not (int_within 0 (max_actions_of program) (get "action_count" public)))
      (client_error "browser executor returned an invalid action count")
  raise_if (has "mutation_started" public && not (is_bool (get "mutation_started" public)))
      (client_error "browser executor returned an invalid mutation state")
  raise_if
      (has "private_result_count" public
        && not (
            int_within (length (keys private)) (length (keys private))
              (get "private_result_count" public)))
      (client_error "browser executor returned an invalid private result count")

-- `{"error": error} if error else {}`
abbrev error_of : Value → Option String
error_of (str s) = some s
error_of _ = none

module _ (message : Fields) (job_id : String) (program : Fields) (authorized : Bool) where
  unfoldable pub check_fields : (status : String) → Value → Value → Result Outcome
  check_fields status (obj public) (obj private) = do
    raise_if (not (subset (keys public) (permitted "public_fields" program)))
        (client_error "browser executor returned an undeclared public field")
    raise_if (not (subset (keys private) (permitted "private_fields" program)))
        (client_error "browser executor returned an undeclared private field")
    raise_if (status == "ok" && is_text "mutation" (get "capability" program) && not authorized)
        (client_error "browser executor reported mutation success without authorization")
    raise_if (status == "ok" && has "error" message)
        (client_error "browser executor returned an error with success")
    raise_if (status == "error" && not (str_and is_identifier (get "error" message)))
        (client_error "browser executor returned a non-generic error")
    check_public program status public private
    ok (record {
      status = status;
      public = public;
      private = private;
      error = error_of (get "error" message);
    })
  check_fields status _ _ = err (client_error "browser executor result fields must be objects")

  unfoldable pub validate_result : Result Outcome
  validate_result = do
    raise_if
        (not (same_set (keys message) result_keys)
          && not (same_set (keys message) result_keys_without_error))
        (client_error "browser executor returned an invalid result shape")
    raise_if
        (not (is_text "result" (get "type" message)) || not (is_text job_id (get "job_id" message)))
        (client_error "browser executor returned a result for another job")
    known ← member (get "status" message) ("ok" ∷ "error" ∷ [])
    raise_if (not known) (client_error "browser executor returned an invalid status")
    check_fields (text_of (get "status" message)) (get "public" message) (get "private" message)
