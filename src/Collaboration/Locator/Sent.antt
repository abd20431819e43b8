-- ===== src/Collaboration/Locator/Sent.antt =====
-- A locator that the controller sends passes the validator's checks of locators.
use mathlib.Core.Path.{subst}
use llm_wiki_chrome.Prelude.{
  ℕ, zero, suc, String, ◌≡◌, refl, ◌∙◌, inl, inr, true, not, Option, none, some, arith, eq_iff,
  contains, subset, any, In,
}
use llm_wiki_chrome.Sets.{any-In, contains-In}
use llm_wiki_chrome.Result.{Result, ok, ok-injective, bind-ok, past_check, when, protocol_error}
use llm_wiki_chrome.Text.{is_identifier}
use llm_wiki_chrome.Json.{Value, Fields, obj, end, field, has, get, keys, is_bool, int_within}
use llm_wiki_chrome.Runtime.{Runtime}
use llm_wiki_chrome.Protocol.Names.{locator_keys, ax_identity_keys}
use llm_wiki_chrome.Protocol.Checks.{reject_unknown_keys, any_text}
use llm_wiki_chrome.Protocol.Locator.{
  check_roles, check_name_matches, check_text_list, check_locator_fields, validate_locator,
  check_ax_keys, validate_ax_locator_shape,
}
use llm_wiki_chrome.Collaboration.Locator.{
  semantic_locator_keys, identity_keys, pick, locator_entries, semantic_locator,
}
use llm_wiki_chrome.Collaboration.Locator.Picked.{
  Table, Each, has-pick, picked-when, picked-raise_if, subset-pick, any-keys,
}
use llm_wiki_chrome.Collaboration.Locator.Accepted.{
  is_text_of, IsChecked, locator_entries-IsChecked,
}

Each-map :
    {P Q : Value → Type 0} (o : Option Value) → ((v : Value) → P v → Q v) → Each P o → Each Q o
Each-map none f h = tt
Each-map (some v) f h = f v h

module _ (r : Runtime) (fs : Fields) (inner : Value → Result (Unit {0})) (t : Table)
    (c : IsChecked r fs inner t) where
  abbrev Matches : Value → Type 0
  Matches v = (is_text_of any_text v ≡ ok tt) × (check_name_matches r v ≡ ok tt)

  check_locator_fields-pick : check_locator_fields r (pick t) ≡ ok tt
  unfolding check_locator_fields reject_unknown_keys
  check_locator_fields-pick =
      let d = c.distinct in
      rw
        (
          subset-pick t locator_keys c.known,
          picked-when "selector" t d (is_text_of any_text) none c.no_selector tt,
          picked-when "role" t d (is_text_of is_identifier) _ refl c.role,
          picked-when "roles" t d check_roles _ refl c.roles,
          picked-when "name" t d (is_text_of any_text) _ refl c.name,
          picked-when "name_contains" t d (is_text_of any_text) _ refl c.name_contains,
          picked-when "name_matches" t d (is_text_of any_text) _ refl
              (Each-map _ (λ v (p : Matches v). p.0) c.name_matches),
          picked-when "name_matches" t d (check_name_matches r) _ refl
              (Each-map _ (λ v (p : Matches v). p.1) c.name_matches),
          picked-when "name_contains_any" t d check_text_list _ refl c.name_contains_any,
          picked-when "within_name_contains_any" t d check_text_list _ refl c.within_any,
          picked-raise_if "ordinal" t d (int_within 0 1000)
              (protocol_error "ordinal is out of bounds") _ refl c.ordinal,
          picked-raise_if "visible" t d is_bool (protocol_error "must be boolean") none c.no_visible
              tt,
          picked-raise_if "checked" t d is_bool (protocol_error "must be boolean") _ refl
              c.checked_flag,
          picked-raise_if "focused" t d is_bool (protocol_error "must be boolean") _ refl c.focused,
          picked-raise_if "unique" t d is_bool (protocol_error "must be boolean") _ refl
              c.unique_flag,
        )
        refl

  inner-pick : when (has "within" (pick t)) (inner (get "within" (pick t))) ≡ ok tt
  inner-pick = picked-when "within" t c.distinct inner _ refl c.inside

-- An object with an entry.
validate_locator-field :
    (r : Runtime) (levels : ℕ) (key : String) (fs : Fields)
    → has key fs ≡ true
    → check_locator_fields r fs ≡ ok tt
    → when (has "within" fs) (validate_locator r levels (get "within" fs)) ≡ ok tt
    → validate_locator r (suc levels) (obj fs) ≡ ok tt
unfolding validate_locator has
validate_locator-field r levels key end there h inside = absurd (cc)
validate_locator-field r levels key (field k v rest) there h inside = rw (h, inside) refl

validate_ax_locator_shape-fields :
    (r : Runtime) (levels : ℕ) (key : String) (fs : Fields) (t : Table)
    {inner : Value → Result (Unit {0})}
    → IsChecked r fs inner t
    → In key ax_identity_keys
    → has key (pick t) ≡ true
    → when (has "within" (pick t)) (validate_ax_locator_shape levels (get "within" (pick t)))
      ≡ ok tt
    → validate_ax_locator_shape (suc levels) (obj (pick t)) ≡ ok tt
unfolding validate_ax_locator_shape check_ax_keys
validate_ax_locator_shape-fields r levels key fs t c m there inside =
    rw
      (
        has-pick "selector" t c.distinct,
        c.no_selector,
        has-pick "visible" t c.distinct,
        c.no_visible,
        any-keys key (pick t) ax_identity_keys m there,
        inside,
      )
      refl

has-In : (key : String) (fs : Fields) → In key (keys fs) → has key fs ≡ true
unfolding has keys
has-In key end m = elim m [ ]
has-In key (field k v fs) (inl e) = ground (arith, eq_iff k key)
has-In key (field k v fs) (inr m) = ground (arith, has-In key fs m)

-- The identity of a locator that passes.
identity_of :
    (fs : Fields)
    → any (contains identity_keys) (keys fs) ≡ true
    → (key : String) × In key identity_keys × (has key fs ≡ true)
identity_of fs h =
    let (key, among, wanted) = any-In (contains identity_keys) (keys fs) h in
    (key, contains-In identity_keys key wanted, has-In key fs among)

-- What the controller sends as a locator passes the validator's check of locators with as many levels, and
-- its check of their shape.
pub semantic_locator-accepted :
    (r : Runtime) (levels : ℕ) (v w : Value)
    → semantic_locator r levels v ≡ ok w
    → (validate_locator r levels w ≡ ok tt) × (validate_ax_locator_shape levels w ≡ ok tt)
unfolding semantic_locator
semantic_locator-accepted r zero v w h = absurd (cc)
semantic_locator-accepted r (suc levels) (obj (field key v rest)) w h =
    let fs : Fields = field key v rest in
    let (known, h1) = past_check (not (subset (keys fs) semantic_locator_keys)) _ _ h in
    let (identity, h2) = past_check (not (any (contains identity_keys) (keys fs))) _ _ h1 in
    let (t, entries, same) =
      bind-ok (locator_entries r fs (semantic_locator r levels (get "within" fs))) _ h2 in
    let (name, among, there) = identity_of fs (ground arith) in
    let c =
      locator_entries-IsChecked r fs (semantic_locator r levels (get "within" fs))
        (validate_locator r levels) t
        (λ w q. (semantic_locator-accepted r levels (get "within" fs) w q).0) entries in
    let d =
      locator_entries-IsChecked r fs (semantic_locator r levels (get "within" fs))
        (validate_ax_locator_shape levels) t
        (λ w q. (semantic_locator-accepted r levels (get "within" fs) w q).1) entries in
    let sent : has name (pick t) ≡ true = has-pick name t c.distinct ∙ c.kept name among there in
    subst
      (λ x.
        (validate_locator r (suc levels) x ≡ ok tt)
        × (validate_ax_locator_shape (suc levels) x ≡ ok tt))
      (ok-injective same)
      (
        validate_locator-field r levels name (pick t) sent (check_locator_fields-pick r fs _ t c)
            (inner-pick r fs _ t c),
        validate_ax_locator_shape-fields r levels name fs t d among sent (inner-pick r fs _ t d),
      )
semantic_locator-accepted r (suc levels) _ w h = absurd (cc)
