-- ===== src/Protocol/Locator.antt =====
-- protocol.py: `_validate_locator`, `_validate_ax_locator_shape` and `_validate_dom_locator_shape`.
-- A locator stands inside another by "within"; three levels are depths 0 to 2.
use llm_wiki_chrome.Prelude.{
  ℕ, zero, suc, String, len, Bool, not, ◌||◌, ◌&&◌, [], ◌∷◌, ◌==◌, leb, ltb, within, length, all,
  any, unique, subset, contains,
}
use llm_wiki_chrome.Result.{Result, err, protocol_error, type_error, raise_if, when, checked, ◌>>◌}
use llm_wiki_chrome.Text.{codes, has_char, is_identifier, has_stacked_repeat, has_back_reference}
use llm_wiki_chrome.Json.{
  Value, Fields, str, arr, obj, end, field, to_list, keys, has, get, is_bool, str_and, texts,
  int_within,
}
use llm_wiki_chrome.Runtime.{Runtime}
use llm_wiki_chrome.Protocol.Names.{locator_keys, ax_identity_keys}
use llm_wiki_chrome.Protocol.Checks.{reject_unknown_keys, bounded_string, any_text}

unfoldable pub check_roles : Value → Result (Unit {0})
check_roles (arr vs) = do
  let roles = to_list vs
  raise_if (not (within 1 8 (length roles)) || not (all (str_and is_identifier) roles))
      (protocol_error "roles must be unique role identifiers")
  raise_if (not (unique (texts roles))) (protocol_error "roles must be unique role identifiers")
check_roles _ = err (protocol_error "roles must be unique role identifiers")

-- `key` is present and not a bounded text
abbrev pub check_text : String → Fields → Result (Unit {0})
check_text key fs = when (has key fs) (checked (bounded_string any_text (get key fs)))

abbrev pub outside_safe_subset : String → Bool
outside_safe_subset pattern =
    ltb 256 (len pattern)
    || has_char b'(' pattern
    || has_char b')' pattern
    || has_char b'{' pattern
    || has_char b'}' pattern
    || has_stacked_repeat (codes pattern)
    || has_back_reference (codes pattern)

-- `bounded_string` has refused what is no text.
unfoldable pub check_name_matches : Runtime → Value → Result (Unit {0})
check_name_matches r (str pattern) = do
  raise_if (outside_safe_subset pattern)
      (protocol_error "name_matches is outside the safe regex subset")
  raise_if (not (r.compiles pattern)) (protocol_error "name_matches is invalid")
check_name_matches r _ = err type_error

abbrev pub is_short_text : String → Bool
is_short_text s = not (s == "") && leb (len s) 512

unfoldable pub check_text_list : Value → Result (Unit {0})
check_text_list (arr vs) =
    raise_if
      (not (within 1 12 (length (to_list vs))) || not (all (str_and is_short_text) (to_list vs)))
      (protocol_error "must be a bounded string array")
check_text_list _ = err (protocol_error "must be a bounded string array")

abbrev pub check_bool : String → Fields → Result (Unit {0})
check_bool key fs =
    raise_if (has key fs && not (is_bool (get key fs))) (protocol_error "must be boolean")

-- Every field but "within".
unfoldable pub check_locator_fields : Runtime → Fields → Result (Unit {0})
check_locator_fields r fs = do
  reject_unknown_keys fs locator_keys
  check_text "selector" fs
  when (has "role" fs) (checked (bounded_string is_identifier (get "role" fs)))
  when (has "roles" fs) (check_roles (get "roles" fs))
  check_text "name" fs
  check_text "name_contains" fs
  check_text "name_matches" fs
  when (has "name_matches" fs) (check_name_matches r (get "name_matches" fs))
  when (has "name_contains_any" fs) (check_text_list (get "name_contains_any" fs))
  when (has "within_name_contains_any" fs) (check_text_list (get "within_name_contains_any" fs))
  raise_if (has "ordinal" fs && not (int_within 0 1000 (get "ordinal" fs)))
      (protocol_error "ordinal is out of bounds")
  check_bool "visible" fs
  check_bool "checked" fs
  check_bool "focused" fs
  check_bool "unique" fs

unfoldable pub validate_locator : Runtime → (levels : ℕ) → Value → Result (Unit {0})
validate_locator r zero v = err (protocol_error "must be a bounded locator object")
validate_locator r (suc levels) (obj end) = err (protocol_error "must be a bounded locator object")
validate_locator r (suc levels) (obj (field k v rest)) =
    let inner = validate_locator r levels (get "within" (field k v rest)) in
    check_locator_fields r (field k v rest) >> when (has "within" (field k v rest)) inner
validate_locator r (suc levels) _ = err (protocol_error "must be a bounded locator object")

abbrev pub locator_levels : ℕ
locator_levels = 3

-- The keys of an accessibility locator: no DOM predicate, and an identity.
unfoldable pub check_ax_keys : Fields → Result (Unit {0})
check_ax_keys fs = do
  raise_if (has "selector" fs || has "visible" fs)
      (protocol_error "AX locators do not accept DOM selector or visibility predicates")
  raise_if (not (any (contains ax_identity_keys) (keys fs)))
      (protocol_error "AX locators require a semantic identity predicate")

-- The descent into "within" is by `levels`: `validate_locator` has bounded it, and
-- Locator/Depth.antt shows that the levels suffice.
unfoldable pub validate_ax_locator_shape : (levels : ℕ) → Value → Result (Unit {0})
validate_ax_locator_shape zero v = err type_error
validate_ax_locator_shape (suc levels) (obj fs) =
    let inner = validate_ax_locator_shape levels (get "within" fs) in
    check_ax_keys fs >> when (has "within" fs) inner
validate_ax_locator_shape (suc levels) _ = err type_error

unfoldable pub validate_dom_locator_shape : Value → Result (Unit {0})
validate_dom_locator_shape (obj fs) =
    raise_if (not (subset (keys fs) ("selector" ∷ "visible" ∷ [])) || not (has "selector" fs))
      (protocol_error "DOM locators require only a selector and optional visibility")
validate_dom_locator_shape _ = err type_error
