-- ===== src/Collaboration/Locator.antt =====
-- collaboration.py: `_bounded_text` and `_validate_locator`, which builds the locator that is sent.
pub mod Picked
pub mod Accepted
pub mod Sent
use llm_wiki_chrome.Prelude.{
  ℕ, zero, suc, String, len, true, false, not, ◌||◌, Option, none, some, List, [], ◌∷◌, ◌==◌, ltb,
  within, length, all, any, unique, subset, contains,
}
use llm_wiki_chrome.Result.{Result, ok, err, type_error, collaboration_error, raise_if, ◌>>=◌, ◌>>◌}
use llm_wiki_chrome.Text.{codes, has_char, is_identifier, has_stacked_repeat, has_back_reference}
use llm_wiki_chrome.Json.{
  Value, Fields, str, arr, obj, bool, end, field, to_list, keys, has, get, str_and, texts,
  is_hashable, int_within,
}
use llm_wiki_chrome.Runtime.{Runtime}
use llm_wiki_chrome.Protocol.Locator.{is_short_text}

abbrev pub semantic_locator_keys : List String
semantic_locator_keys =
    "role" ∷ "roles" ∷ "name" ∷ "name_contains" ∷ "name_contains_any" ∷ "name_matches" ∷ "within"
    ∷ "within_name_contains_any" ∷ "ordinal" ∷ "checked" ∷ "focused" ∷ "unique" ∷ []

abbrev pub identity_keys : List String
identity_keys =
    "role" ∷ "roles" ∷ "name" ∷ "name_contains" ∷ "name_contains_any" ∷ "name_matches" ∷ "within"
    ∷ "within_name_contains_any" ∷ []

unfoldable pub bounded_text : (maximum : ℕ) → Value → Result String
bounded_text maximum (str s) = do
  raise_if (s == "") (collaboration_error "must be a non-empty string")
  raise_if (ltb maximum (len s)) (collaboration_error "is too large")
  ok s
bounded_text maximum _ = err (collaboration_error "must be a non-empty string")

unfoldable pub locator_role : Value → Result Value
locator_role v = do
  role ← bounded_text 64 v
  raise_if (not (is_identifier role)) (collaboration_error "locator.role is invalid")
  ok (str role)

-- `set(roles)` raises on a list or an object.
unfoldable pub locator_roles : Value → Result Value
locator_roles (arr vs) = do
  raise_if (not (within 1 8 (length (to_list vs)))) (collaboration_error "locator.roles is invalid")
  raise_if (not (all is_hashable (to_list vs))) type_error
  raise_if (not (all (str_and is_identifier) (to_list vs)))
      (collaboration_error "locator.roles is invalid")
  raise_if (not (unique (texts (to_list vs)))) (collaboration_error "locator.roles is invalid")
  ok (arr vs)
locator_roles _ = err (collaboration_error "locator.roles is invalid")

unfoldable pub locator_text : Value → Result Value
locator_text v = do text ← bounded_text 512 v; ok (str text)

unfoldable pub locator_pattern : Runtime → Value → Result Value
locator_pattern r v = do
  pattern ← bounded_text 256 v
  raise_if
      (has_char b'(' pattern
        || has_char b')' pattern
        || has_char b'{' pattern
        || has_char b'}' pattern
        || has_stacked_repeat (codes pattern)
        || has_back_reference (codes pattern))
      (collaboration_error "locator.name_matches is outside the safe regex subset")
  raise_if (not (r.compiles pattern)) (collaboration_error "locator.name_matches is invalid")
  ok (str pattern)

unfoldable pub locator_texts : Value → Result Value
locator_texts (arr vs) = do
  raise_if
      (not (within 1 12 (length (to_list vs))) || not (all (str_and is_short_text) (to_list vs)))
      (collaboration_error "is invalid")
  ok (arr vs)
locator_texts _ = err (collaboration_error "is invalid")

unfoldable pub locator_ordinal : Value → Result Value
locator_ordinal v = do
  raise_if (not (int_within 0 1000 v)) (collaboration_error "locator.ordinal is out of bounds")
  ok v

unfoldable pub locator_flag : Value → Result Value
locator_flag (bool b) = ok (bool b)
locator_flag _ = err (collaboration_error "must be boolean")

-- `if key in value: result[key] = ...`
abbrev pub optional : String → Fields → Result Value → Result (Option Value)
optional key fs entry = elim (has key fs) [ true ↦ entry >>= (λ v. ok (some v)) | false ↦ ok none ]

-- The entries that are there, in the order in which they were put.
unfoldable pub pick : List (String × Option Value) → Fields
pick [] = end
pick ((key, none) ∷ rest) = pick rest
pick ((key, some v) ∷ rest) = field key v (pick rest)

-- The checks of every entry; `inner` is what the locator inside comes to.
unfoldable pub locator_entries :
    Runtime → Fields → (inner : Result Value) → Result (List (String × Option Value))
locator_entries r fs inner = do
  role ← optional "role" fs (locator_role (get "role" fs))
  roles ← optional "roles" fs (locator_roles (get "roles" fs))
  name ← optional "name" fs (locator_text (get "name" fs))
  name_contains ← optional "name_contains" fs (locator_text (get "name_contains" fs))
  name_matches ← optional "name_matches" fs (locator_pattern r (get "name_matches" fs))
  contains_any ← optional "name_contains_any" fs (locator_texts (get "name_contains_any" fs))
  within_any ←
      optional "within_name_contains_any" fs (locator_texts (get "within_name_contains_any" fs))
  within ← optional "within" fs inner
  ordinal ← optional "ordinal" fs (locator_ordinal (get "ordinal" fs))
  checked ← optional "checked" fs (locator_flag (get "checked" fs))
  focused ← optional "focused" fs (locator_flag (get "focused" fs))
  unique ← optional "unique" fs (locator_flag (get "unique" fs))
  ok (
      ("role", role)
      ∷ ("roles", roles)
      ∷ ("name", name)
      ∷ ("name_contains", name_contains)
      ∷ ("name_matches", name_matches)
      ∷ ("name_contains_any", contains_any)
      ∷ ("within_name_contains_any", within_any)
      ∷ ("within", within)
      ∷ ("ordinal", ordinal)
      ∷ ("checked", checked)
      ∷ ("focused", focused)
      ∷ ("unique", unique)
      ∷ [])

unfoldable pub semantic_locator : Runtime → (levels : ℕ) → Value → Result Value
semantic_locator r zero v = err (collaboration_error "locator must be a bounded semantic object")
semantic_locator r (suc levels) (obj (field key v rest)) = do
  let fs : Fields = field key v rest
  let inner : Result Value = semantic_locator r levels (get "within" fs)
  raise_if (not (subset (keys fs) semantic_locator_keys))
      (collaboration_error "locator contains unsupported fields")
  raise_if (not (any (contains identity_keys) (keys fs)))
      (collaboration_error "locator needs a semantic identity predicate")
  table ← locator_entries r fs inner
  ok (obj (pick table))
semantic_locator r (suc levels) _ =
    err (collaboration_error "locator must be a bounded semantic object")
