-- ===== src/Protocol/Depth.antt =====
-- The levels that the walk into "within" may take, and what each level of an accepted accessibility
-- locator has.
use llm_wiki_chrome.Prelude.{
  ℕ, zero, suc, ◌<◌, String, ◌≡◌, ◌≢◌, refl, inl, inr, true, false, arith, In, contains, any,
  Bool-cases, subset,
}
use llm_wiki_chrome.Sets.{any-In, contains-In}
use llm_wiki_chrome.Result.{ok, err, type_error, when, then-ok, when-ok}
use llm_wiki_chrome.Json.{Value, Fields, obj, end, field, get, has, keys}
use llm_wiki_chrome.Runtime.{Runtime}
use llm_wiki_chrome.Protocol.Names.{ax_identity_keys, locator_keys}
use llm_wiki_chrome.Protocol.Checks.{reject_unknown_keys}
use llm_wiki_chrome.Protocol.Locator.{
  check_locator_fields, validate_locator, check_ax_keys, validate_ax_locator_shape,
}

-- `w` stands in `v`, so many "within" deep.
pub data Within : Value → ℕ → Value → Type 0 where
  self : {v : Value} → Within v 0 v
  inner :
      {fs : Fields} {n : ℕ} {w : Value}
      → has "within" fs ≡ true
      → Within (get "within" fs) n w
      → Within (obj fs) (suc n) w

validate_locator-object :
    (r : Runtime) (levels : ℕ) (v : Value)
    → validate_locator r levels v ≡ ok tt
    → (fs : Fields) × (below : ℕ) × (v ≡ obj fs)
      × (levels ≡ suc below)
      × (check_locator_fields r fs ≡ ok tt)
      × (when (has "within" fs) (validate_locator r below (get "within" fs)) ≡ ok tt)
unfolding validate_locator
validate_locator-object r zero v h = absurd (cc)
validate_locator-object r (suc levels) (obj (field k v rest)) h =
    let (a, b) =
      then-ok (check_locator_fields r (field k v rest))
        (when (has "within" (field k v rest))
          (validate_locator r levels (get "within" (field k v rest))))
        h in
    (field k v rest, levels, refl, refl, a, b)
validate_locator-object r (suc levels) (obj end) h = absurd (cc)
validate_locator-object r (suc levels) _ h = absurd (cc)

check_locator_fields-known :
    (r : Runtime) (fs : Fields)
    → check_locator_fields r fs ≡ ok tt
    → subset (keys fs) locator_keys ≡ true
unfolding check_locator_fields reject_unknown_keys
check_locator_fields-known r fs h = elim (Bool-cases (subset (keys fs) locator_keys)) [
  | inl e ↦ e
  | inr e ↦ cc (rw e at h)
]

validate_locator-inside :
    (r : Runtime) (levels : ℕ) (fs : Fields)
    → validate_locator r levels (obj fs) ≡ ok tt
    → has "within" fs ≡ true
    → (below : ℕ) × (levels ≡ suc below) × (validate_locator r below (get "within" fs) ≡ ok tt)
unfolding validate_locator
validate_locator-inside r zero fs h inside = cc
validate_locator-inside r (suc levels) end h inside = cc
validate_locator-inside r (suc levels) (field k v rest) h inside =
    let (_, next) =
      then-ok (check_locator_fields r (field k v rest))
        (when (has "within" (field k v rest))
          (validate_locator r levels (get "within" (field k v rest))))
        h in
    (
      levels,
      refl,
      when-ok _ (validate_locator r levels (get "within" (field k v rest))) next inside,
    )

-- Each locator inside an accepted one, itself included, is an object of known keys only, at a depth
-- below the levels.
pub validate_locator-Within :
    (r : Runtime) (levels : ℕ) {v w : Value} {depth : ℕ}
    → validate_locator r levels v ≡ ok tt
    → Within v depth w
    → (depth < levels) × ((fs : Fields) × (w ≡ obj fs) × (subset (keys fs) locator_keys ≡ true))
validate_locator-Within r levels {v} h self =
    let (fs, below, q, l, fields_ok, _) = validate_locator-object r levels v h in
    (omega arith, (fs, q, check_locator_fields-known r fs fields_ok))
validate_locator-Within r levels h (inner {fs = fs} inside m) =
    let (below, l, next) = validate_locator-inside r levels fs h inside in
    let (small, deeper) = validate_locator-Within r below next m in (omega arith, deeper)

-- What an accepted accessibility locator has at each level.
validate_ax_locator_shape-inside :
    (levels : ℕ) (v : Value)
    → validate_ax_locator_shape levels v ≡ ok tt
    → (fs : Fields) × (below : ℕ) × (v ≡ obj fs)
      × (levels ≡ suc below)
      × (check_ax_keys fs ≡ ok tt)
      × (when (has "within" fs) (validate_ax_locator_shape below (get "within" fs)) ≡ ok tt)
unfolding validate_ax_locator_shape
validate_ax_locator_shape-inside zero v h = absurd (cc)
validate_ax_locator_shape-inside (suc levels) (obj fs) h =
    let (a, b) =
      then-ok (check_ax_keys fs)
        (when (has "within" fs) (validate_ax_locator_shape levels (get "within" fs))) h in
    (fs, levels, refl, refl, a, b)
validate_ax_locator_shape-inside (suc levels) _ h = absurd (cc)

ax_inside :
    (levels : ℕ) (fs : Fields)
    → validate_ax_locator_shape levels (obj fs) ≡ ok tt
    → has "within" fs ≡ true
    → (below : ℕ) × (validate_ax_locator_shape below (get "within" fs) ≡ ok tt)
unfolding validate_ax_locator_shape
ax_inside zero fs h inside = cc
ax_inside (suc levels) fs h inside =
    let (_, next) =
      then-ok (check_ax_keys fs)
        (when (has "within" fs) (validate_ax_locator_shape levels (get "within" fs))) h in
    (levels, when-ok _ (validate_ax_locator_shape levels (get "within" fs)) next inside)

check_ax_keys-parts :
    (fs : Fields)
    → check_ax_keys fs ≡ ok tt
    → (has "selector" fs ≡ false)
      × (has "visible" fs ≡ false)
      × (any (contains ax_identity_keys) (keys fs) ≡ true)
unfolding check_ax_keys
check_ax_keys-parts fs h = ground arith

-- Each locator inside an accepted accessibility locator, itself included, is an object with neither a
-- DOM selector nor a visibility test, and with a key that names something in the accessibility tree.
pub validate_ax_locator_shape-Within :
    (levels : ℕ) {v w : Value} {depth : ℕ}
    → validate_ax_locator_shape levels v ≡ ok tt
    → Within v depth w
    → (fs : Fields) × (w ≡ obj fs)
      × (has "selector" fs ≡ false)
      × (has "visible" fs ≡ false)
      × (key : String) × In key (keys fs)
      × In key ax_identity_keys
validate_ax_locator_shape-Within levels {v} h self =
    let (fs, below, q, l, keys_ok, _) = validate_ax_locator_shape-inside levels v h in
    let (no_selector, no_visible, known) = check_ax_keys-parts fs keys_ok in
    let (key, place, identity) = any-In (contains ax_identity_keys) (keys fs) known in
    (fs, q, no_selector, no_visible, key, place, contains-In ax_identity_keys key identity)
validate_ax_locator_shape-Within levels h (inner {fs = fs} inside m) =
    let (below, next) = ax_inside levels fs h inside in
    validate_ax_locator_shape-Within below next m

check_ax_keys-error : (fs : Fields) → check_ax_keys fs ≢ err type_error
unfolding check_ax_keys
check_ax_keys-error fs h = ground arith

validate_locator-next :
    (r : Runtime) (levels : ℕ) (fs : Fields)
    → validate_locator r (suc levels) (obj fs) ≡ ok tt
    → has "within" fs ≡ true
    → validate_locator r levels (get "within" fs) ≡ ok tt
unfolding validate_locator
validate_locator-next r levels end h inside = cc
validate_locator-next r levels (field k v rest) h inside =
    when-ok _ (validate_locator r levels (get "within" (field k v rest)))
      (then-ok (check_locator_fields r (field k v rest))
        (when (has "within" (field k v rest))
          (validate_locator r levels (get "within" (field k v rest))))
        h).1
      inside

-- As many levels as `validate_locator` accepts a locator with are enough for the walk through its shape,
-- which then never ends for want of levels or at a value that is no object.
pub validate_ax_locator_shape-enough :
    (r : Runtime) (levels : ℕ) (v : Value)
    → validate_locator r levels v ≡ ok tt
    → validate_ax_locator_shape levels v ≢ err type_error
unfolding validate_locator validate_ax_locator_shape
validate_ax_locator_shape-enough r zero v h e = cc
validate_ax_locator_shape-enough r (suc levels) (obj fs) h e = elim (Bool-cases (has "within" fs)) [
  | inl inside ↦ ground (
    arith,
    check_ax_keys-error fs,
    validate_ax_locator_shape-enough r levels (get "within" fs)
        (validate_locator-next r levels fs h inside),
  )
  | inr outside ↦ ground (arith, check_ax_keys-error fs)
]
validate_ax_locator_shape-enough r (suc levels) _ h e = cc
