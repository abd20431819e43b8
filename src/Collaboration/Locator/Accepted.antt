-- ===== src/Collaboration/Locator/Accepted.antt =====
-- The locator that the controller sends, before the checks of the validator.
use mathlib.Core.Path.{subst}
use llm_wiki_chrome.Prelude.{
  ℕ, ◌≤◌, sym, String, len, ◌≡◌, refl, inl, inr, Bool, true, false, not, ◌||◌, ◌==◌, none, is_some,
  arith, contains, unique, subset, all, In, within, length, ltb,
}
use llm_wiki_chrome.Result.{Result, ok, ok-injective, bind-ok, past_check, checked}
use llm_wiki_chrome.Text.{codes, has_char, has_stacked_repeat, has_back_reference, is_identifier}
use llm_wiki_chrome.Json.{
  Value, Fields, str, arr, bool, has, get, to_list, texts, is_bool, is_hashable, str_and,
  int_within,
}
use llm_wiki_chrome.Runtime.{Runtime}
use llm_wiki_chrome.Protocol.Names.{max_string_bytes, locator_keys}
use llm_wiki_chrome.Protocol.Checks.{bounded_string, any_text}
use llm_wiki_chrome.Protocol.Locator.{
  check_roles, check_name_matches, check_text_list, is_short_text,
}
use llm_wiki_chrome.Collaboration.Locator.{
  identity_keys, bounded_text, locator_role, locator_roles, locator_text, locator_pattern,
  locator_texts, locator_ordinal, locator_flag, optional, locator_entries,
}
use llm_wiki_chrome.Collaboration.Locator.Picked.{
  Table, lookup, Each, optional-Each, optional-is_some, names,
}

abbrev pub is_text_of : (pattern : String → Bool) → Value → Result (Unit {0})
is_text_of pattern v = checked (bounded_string pattern v)

bounded_text-ok :
    (maximum : ℕ) (v : Value) (t : String)
    → bounded_text maximum v ≡ ok t
    → ((t == "") ≡ false) × (ltb maximum (len t) ≡ false)
unfolding bounded_text
bounded_text-ok maximum (str s) t h =
    let (filled, rest) = past_check (s == "") _ _ h in
    let (small, same) = past_check (ltb maximum (len s)) _ _ rest in
    subst (λ x. ((x == "") ≡ false) × (ltb maximum (len x) ≡ false)) (ok-injective same)
      (filled, small)
bounded_text-ok maximum _ t h = absurd (cc)

-- A text that passed a narrower limit.
is_text_of-ok :
    (maximum : ℕ) (pattern : String → Bool) (v : Value) (t : String)
    → maximum ≤ max_string_bytes
    → bounded_text maximum v ≡ ok t
    → pattern t ≡ true
    → is_text_of pattern (str t) ≡ ok tt
unfolding bounded_string
is_text_of-ok maximum pattern v t narrow h fits =
    let (filled, small) = bounded_text-ok maximum v t h in
    let within_limit : ltb max_string_bytes (len t) ≡ false = ground arith in
    rw (filled, within_limit, fits) refl

locator_role-accepted : (v w : Value) → locator_role v ≡ ok w → is_text_of is_identifier w ≡ ok tt
unfolding locator_role
locator_role-accepted v w h =
    let (role, bounded, rest) = bind-ok (bounded_text 64 v) _ h in
    let (fits, same) = past_check (not (is_identifier role)) _ _ rest in
    subst (λ x. is_text_of is_identifier x ≡ ok tt) (ok-injective same)
      (is_text_of-ok 64 is_identifier v role (omega arith) bounded (ground arith))

locator_text-accepted : (v w : Value) → locator_text v ≡ ok w → is_text_of any_text w ≡ ok tt
unfolding locator_text
locator_text-accepted v w h =
    let (text, bounded, same) = bind-ok (bounded_text 512 v) _ h in
    subst (λ x. is_text_of any_text x ≡ ok tt) (ok-injective same)
      (is_text_of-ok 512 any_text v text (omega arith) bounded refl)

locator_roles-accepted : (v w : Value) → locator_roles v ≡ ok w → check_roles w ≡ ok tt
unfolding locator_roles check_roles
locator_roles-accepted (arr vs) w h =
    let (few, h1) = past_check (not (within 1 8 (length (to_list vs)))) _ _ h in
    let (plain, h2) = past_check (not (all is_hashable (to_list vs))) _ _ h1 in
    let (roles, h3) = past_check (not (all (str_and is_identifier) (to_list vs))) _ _ h2 in
    let (distinct, same) = past_check (not (unique (texts (to_list vs)))) _ _ h3 in
    subst (λ x. check_roles x ≡ ok tt) (ok-injective same) (rw (few, roles, distinct) refl)
locator_roles-accepted _ w h = absurd (cc)

locator_texts-accepted : (v w : Value) → locator_texts v ≡ ok w → check_text_list w ≡ ok tt
unfolding locator_texts check_text_list
locator_texts-accepted (arr vs) w h =
    let (fits, same) =
      past_check
        (not (within 1 12 (length (to_list vs))) || not (all (str_and is_short_text) (to_list vs)))
        _ _ h in
    subst (λ x. check_text_list x ≡ ok tt) (ok-injective same) (rw fits refl)
locator_texts-accepted _ w h = absurd (cc)

locator_ordinal-accepted : (v w : Value) → locator_ordinal v ≡ ok w → int_within 0 1000 w ≡ true
unfolding locator_ordinal
locator_ordinal-accepted v w h =
    let (fits, same) = past_check (not (int_within 0 1000 v)) _ _ h in
    subst (λ x. int_within 0 1000 x ≡ true) (ok-injective same) (ground arith)

locator_flag-accepted : (v w : Value) → locator_flag v ≡ ok w → is_bool w ≡ true
unfolding locator_flag
locator_flag-accepted (bool b) w h = subst (λ x. is_bool x ≡ true) (ok-injective h) refl
locator_flag-accepted _ w h = absurd (cc)

abbrev unsafe : String → Bool
unsafe pattern =
    has_char b'(' pattern
    || has_char b')' pattern
    || has_char b'{' pattern
    || has_char b'}' pattern
    || has_stacked_repeat (codes pattern)
    || has_back_reference (codes pattern)

locator_pattern-accepted :
    (r : Runtime) (v w : Value)
    → locator_pattern r v ≡ ok w
    → (is_text_of any_text w ≡ ok tt) × (check_name_matches r w ≡ ok tt)
unfolding locator_pattern check_name_matches
locator_pattern-accepted r v w h =
    let (pattern, bounded, h1) = bind-ok (bounded_text 256 v) _ h in
    let (safe, h2) = past_check (unsafe pattern) _ _ h1 in
    let (compiles, same) = past_check (not (r.compiles pattern)) _ _ h2 in
    let (filled, small) = bounded_text-ok 256 v pattern bounded in
    subst (λ x. (is_text_of any_text x ≡ ok tt) × (check_name_matches r x ≡ ok tt))
      (ok-injective same)
      (
        is_text_of-ok 256 any_text v pattern (omega arith) bounded refl,
        rw (small, safe, compiles) refl,
      )

-- The entries of the table, each checked.
pub record IsChecked (r : Runtime) (fs : Fields) (inner : Value → Result (Unit {0})) (t : Table)
    : Type 0 where
  pub role : Each (λ v. is_text_of is_identifier v ≡ ok tt) (lookup "role" t)
  pub roles : Each (λ v. check_roles v ≡ ok tt) (lookup "roles" t)
  pub name : Each (λ v. is_text_of any_text v ≡ ok tt) (lookup "name" t)
  pub name_contains : Each (λ v. is_text_of any_text v ≡ ok tt) (lookup "name_contains" t)
  pub name_matches :
      Each
        (λ v. (is_text_of any_text v ≡ ok tt) × (check_name_matches r v ≡ ok tt))
        (lookup "name_matches" t)
  pub name_contains_any : Each (λ v. check_text_list v ≡ ok tt) (lookup "name_contains_any" t)
  pub within_any : Each (λ v. check_text_list v ≡ ok tt) (lookup "within_name_contains_any" t)
  pub ordinal : Each (λ v. int_within 0 1000 v ≡ true) (lookup "ordinal" t)
  pub checked_flag : Each (λ v. is_bool v ≡ true) (lookup "checked" t)
  pub focused : Each (λ v. is_bool v ≡ true) (lookup "focused" t)
  pub unique_flag : Each (λ v. is_bool v ≡ true) (lookup "unique" t)
  pub inside : Each (λ v. inner v ≡ ok tt) (lookup "within" t)
  pub no_selector : lookup "selector" t ≡ none
  pub no_visible : lookup "visible" t ≡ none
  pub distinct : unique (names t) ≡ true
  pub known : subset (names t) locator_keys ≡ true
  pub kept :
      (key : String) → In key identity_keys → has key fs ≡ true → is_some (lookup key t) ≡ true

-- What holds of every identity key.
each_identity :
    (P : String → Type 0)
    → (P "role"
        × P "roles"
        × P "name"
        × P "name_contains"
        × P "name_contains_any"
        × P "name_matches"
        × P "within"
        × P "within_name_contains_any")
    → (key : String) → In key identity_keys
    → P key
each_identity P (a, b, c, d, e, f, g, h) key m = elim m [
  | inl q ↦ subst P (sym q) a
  | inr (inl q) ↦ subst P (sym q) b
  | inr (inr (inl q)) ↦ subst P (sym q) c
  | inr (inr (inr (inl q))) ↦ subst P (sym q) d
  | inr (inr (inr (inr (inl q)))) ↦ subst P (sym q) e
  | inr (inr (inr (inr (inr (inl q))))) ↦ subst P (sym q) f
  | inr (inr (inr (inr (inr (inr (inl q)))))) ↦ subst P (sym q) g
  | inr (inr (inr (inr (inr (inr (inr (inl q))))))) ↦ subst P (sym q) h
  | inr (inr (inr (inr (inr (inr (inr (inr none_left))))))) ↦ elim none_left [ ]
]

pub locator_entries-IsChecked :
    (r : Runtime) (fs : Fields) (entry : Result Value) (inner : Value → Result (Unit {0}))
    (t : Table)
    → ((w : Value) → entry ≡ ok w → inner w ≡ ok tt)
    → locator_entries r fs entry ≡ ok t
    → IsChecked r fs inner t
unfolding locator_entries lookup unique contains subset
locator_entries-IsChecked r fs entry inner t within_ok h =
    let (role, role_ok, h1) = bind-ok (optional "role" fs (locator_role (get "role" fs))) _ h in
    let (roles, roles_ok, h2) =
      bind-ok (optional "roles" fs (locator_roles (get "roles" fs))) _ h1 in
    let (name, name_ok, h3) = bind-ok (optional "name" fs (locator_text (get "name" fs))) _ h2 in
    let (part, part_ok, h4) =
      bind-ok (optional "name_contains" fs (locator_text (get "name_contains" fs))) _ h3 in
    let (pattern, pattern_ok, h5) =
      bind-ok (optional "name_matches" fs (locator_pattern r (get "name_matches" fs))) _ h4 in
    let (any_of, any_ok, h6) =
      bind-ok (optional "name_contains_any" fs (locator_texts (get "name_contains_any" fs))) _ h5 in
    let (around, around_ok, h7) =
      bind-ok
        (optional "within_name_contains_any" fs (locator_texts (get "within_name_contains_any" fs)))
        _ h6 in
    let (inside, inside_ok, h8) = bind-ok (optional "within" fs entry) _ h7 in
    let (ordinal, ordinal_ok, h9) =
      bind-ok (optional "ordinal" fs (locator_ordinal (get "ordinal" fs))) _ h8 in
    let (checked_o, checked_ok, h10) =
      bind-ok (optional "checked" fs (locator_flag (get "checked" fs))) _ h9 in
    let (focused, focused_ok, h11) =
      bind-ok (optional "focused" fs (locator_flag (get "focused" fs))) _ h10 in
    let (unique_o, unique_ok, h12) =
      bind-ok (optional "unique" fs (locator_flag (get "unique" fs))) _ h11 in
    subst (IsChecked r fs inner) (ok-injective h12) (record {
      role = optional-Each _ _ _ _ (locator_role-accepted (get "role" fs)) role_ok;
      roles = optional-Each _ _ _ _ (locator_roles-accepted (get "roles" fs)) roles_ok;
      name = optional-Each _ _ _ _ (locator_text-accepted (get "name" fs)) name_ok;
      name_contains =
          optional-Each _ _ _ _ (locator_text-accepted (get "name_contains" fs)) part_ok;
      name_matches =
          optional-Each _ _ _ _ (locator_pattern-accepted r (get "name_matches" fs)) pattern_ok;
      name_contains_any =
          optional-Each _ _ _ _ (locator_texts-accepted (get "name_contains_any" fs)) any_ok;
      within_any =
          optional-Each _ _ _ _ (locator_texts-accepted (get "within_name_contains_any" fs))
            around_ok;
      ordinal = optional-Each _ _ _ _ (locator_ordinal-accepted (get "ordinal" fs)) ordinal_ok;
      checked_flag = optional-Each _ _ _ _ (locator_flag-accepted (get "checked" fs)) checked_ok;
      focused = optional-Each _ _ _ _ (locator_flag-accepted (get "focused" fs)) focused_ok;
      unique_flag = optional-Each _ _ _ _ (locator_flag-accepted (get "unique" fs)) unique_ok;
      inside = optional-Each _ _ _ _ within_ok inside_ok;
      no_selector = refl;
      no_visible = refl;
      distinct = refl;
      known = refl;
      kept = each_identity _ (
        (λ there. optional-is_some "role" fs _ there role_ok),
        (λ there. optional-is_some "roles" fs _ there roles_ok),
        (λ there. optional-is_some "name" fs _ there name_ok),
        (λ there. optional-is_some "name_contains" fs _ there part_ok),
        (λ there. optional-is_some "name_contains_any" fs _ there any_ok),
        (λ there. optional-is_some "name_matches" fs _ there pattern_ok),
        (λ there. optional-is_some "within" fs _ there inside_ok),
        λ there. optional-is_some "within_name_contains_any" fs _ there around_ok,
      );
    })
