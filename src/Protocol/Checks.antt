-- ===== src/Protocol/Checks.antt =====
-- protocol.py: `_reject_unknown_keys`, `_bounded_string`, `_check_forbidden_keys`,
-- `_path_matches_prefix` and `canonical_program_sha256`.
use llm_wiki_chrome.Prelude.{
  String, len, Bool, true, not, ◌||◌, ◌&&◌, List, [], ◌∷◌, ◌++◌, ◌==◌, ltb, subset, contains,
}
use llm_wiki_chrome.Result.{Result, ok, err, protocol_error, raise_if, ◌>>◌}
use llm_wiki_chrome.Text.{codes, prefix_of, ends_in}
use llm_wiki_chrome.Json.{Value, Items, Fields, str, arr, obj, nil, cons, end, field, keys, without}
use llm_wiki_chrome.Runtime.{Runtime}
use llm_wiki_chrome.Protocol.Names.{max_string_bytes, forbidden_keys}

unfoldable pub reject_unknown_keys : Fields → List String → Result (Unit {0})
reject_unknown_keys fs allowed =
    raise_if (not (subset (keys fs) allowed)) (protocol_error "contains unsupported fields")

-- `pattern` is the test of the compiled pattern, always true where none is given.
unfoldable pub bounded_string : (pattern : String → Bool) → Value → Result String
bounded_string pattern (str s) = do
  raise_if (s == "") (protocol_error "must be a non-empty string")
  raise_if (ltb max_string_bytes (len s)) (protocol_error "is too large")
  raise_if (not (pattern s)) (protocol_error "has an invalid identifier")
  ok s
bounded_string pattern _ = err (protocol_error "must be a non-empty string")

abbrev pub any_text : String → Bool
any_text s = true

unfoldable mutual
  pub check_forbidden_keys : Runtime → Value → Result (Unit {0})
  check_forbidden_keys r (obj fs) = check_forbidden_fields r fs
  check_forbidden_keys r (arr vs) = check_forbidden_items r vs
  check_forbidden_keys r _ = ok tt

  pub check_forbidden_items : Runtime → Items → Result (Unit {0})
  check_forbidden_items r nil = ok tt
  check_forbidden_items r (cons v vs) = check_forbidden_keys r v >> check_forbidden_items r vs

  pub check_forbidden_fields : Runtime → Fields → Result (Unit {0})
  check_forbidden_fields r end = ok tt
  check_forbidden_fields r (field k v fs) =
      raise_if (contains forbidden_keys (r.lower k)) (protocol_error "contains forbidden key")
      >> (check_forbidden_keys r v >> check_forbidden_fields r fs)

-- path == prefix or prefix ends in "/" and starts path, or prefix + "/" starts path
unfoldable pub path_matches_prefix : (path prefix : String) → Bool
path_matches_prefix path prefix =
    path == prefix
    || (ends_in b'/' (codes prefix) && prefix_of (codes prefix) (codes path))
    || prefix_of (codes prefix ++ b'/' ∷ []) (codes path)

unfoldable pub canonical_program_sha256 : Runtime → Fields → String
canonical_program_sha256 r fs = r.sha256 (r.dumps (obj (without "program_sha256" fs)))
