-- ===== src/Protocol/Forbidden.antt =====
-- Which keys `_check_forbidden_keys` looks at: every key of every object inside a value.
use llm_wiki_chrome.Prelude.{
  String, sym, ◌↔◌, refl, ◌≡◌, inl, inr, false, arith, In, contains, Bool-cases,
}
use mathlib.Core.Path.{subst}
use llm_wiki_chrome.Sets.{contains-In, contains-false}
use llm_wiki_chrome.Result.{past_check, then-ok, protocol_error, ok, ◌>>◌}
use llm_wiki_chrome.Json.{
  Value, Items, Fields, null, bool, int, float, str, arr, obj, nil, cons, end, field,
}
use llm_wiki_chrome.Runtime.{Runtime}
use llm_wiki_chrome.Protocol.Names.{forbidden_keys}
use llm_wiki_chrome.Protocol.Checks.{check_forbidden_keys}
use llm_wiki_chrome.Protocol.Program.{validate_program}
use llm_wiki_chrome.Protocol.Accepted.{validate_program-Accepted}

-- The key stands in an object somewhere inside the value.
mutual
  pub data KeyInside (key : String) : Value → Type 0 where
    in_list : {vs : Items} → KeyInItems key vs → KeyInside key (arr vs)
    in_object : {fs : Fields} → KeyInFields key fs → KeyInside key (obj fs)

  pub data KeyInItems (key : String) : Items → Type 0 where
    in_first : {v : Value} {vs : Items} → KeyInside key v → KeyInItems key (cons v vs)
    in_later : {v : Value} {vs : Items} → KeyInItems key vs → KeyInItems key (cons v vs)

  pub data KeyInFields (key : String) : Fields → Type 0 where
    is_key : {k : String} {v : Value} {fs : Fields} → key ≡ k → KeyInFields key (field k v fs)
    in_value :
        {k : String} {v : Value} {fs : Fields} → KeyInside key v → KeyInFields key (field k v fs)
    in_rest :
        {k : String} {v : Value} {fs : Fields} → KeyInFields key fs → KeyInFields key (field k v fs)

object_passes :
    (r : Runtime) (k : String) (v : Value) (fs : Fields)
    → check_forbidden_keys r (obj (field k v fs)) ≡ ok tt
    → (contains forbidden_keys (r.lower k) ≡ false)
      × (check_forbidden_keys r v ≡ ok tt)
      × (check_forbidden_keys r (obj fs) ≡ ok tt)
unfolding check_forbidden_keys
object_passes r k v fs h =
    let (allowed, rest) =
      past_check (contains forbidden_keys (r.lower k)) (protocol_error "contains forbidden key")
        (check_forbidden_keys r v >> check_forbidden_keys r (obj fs)) h in
    let (inner, later) =
      then-ok (check_forbidden_keys r v) (check_forbidden_keys r (obj fs)) rest in
    (allowed, inner, later)

list_passes :
    (r : Runtime) (v : Value) (vs : Items)
    → check_forbidden_keys r (arr (cons v vs)) ≡ ok tt
    → (check_forbidden_keys r v ≡ ok tt) × (check_forbidden_keys r (arr vs) ≡ ok tt)
unfolding check_forbidden_keys
list_passes r v vs h = then-ok (check_forbidden_keys r v) (check_forbidden_keys r (arr vs)) h

mutual
  unfolding check_forbidden_keys

  value_sound :
      (r : Runtime) (key : String) (v : Value)
      → check_forbidden_keys r v ≡ ok tt
      → KeyInside key v
      → ¬ (In (r.lower key) forbidden_keys)
  value_sound r key null h m = elim m [ ]
  value_sound r key (bool b) h m = elim m [ ]
  value_sound r key (int n) h m = elim m [ ]
  value_sound r key (float x) h m = elim m [ ]
  value_sound r key (str s) h m = elim m [ ]
  value_sound r key (arr vs) h (in_list m) = items_sound r key vs h m
  value_sound r key (obj fs) h (in_object m) = fields_sound r key fs h m

  items_sound :
      (r : Runtime) (key : String) (vs : Items)
      → check_forbidden_keys r (arr vs) ≡ ok tt
      → KeyInItems key vs
      → ¬ (In (r.lower key) forbidden_keys)
  items_sound r key nil h m = elim m [ ]
  items_sound r key (cons v vs) h (in_first m) = value_sound r key v (list_passes r v vs h).0 m
  items_sound r key (cons v vs) h (in_later m) = items_sound r key vs (list_passes r v vs h).1 m

  fields_sound :
      (r : Runtime) (key : String) (fs : Fields)
      → check_forbidden_keys r (obj fs) ≡ ok tt
      → KeyInFields key fs
      → ¬ (In (r.lower key) forbidden_keys)
  fields_sound r key end h m = elim m [ ]
  fields_sound r key (field k v fs) h (is_key e) =
      subst (λ x. ¬ (In (r.lower x) forbidden_keys)) (sym e)
        (contains-false forbidden_keys (r.lower k) (object_passes r k v fs h).0)
  fields_sound r key (field k v fs) h (in_value m) =
      value_sound r key v (object_passes r k v fs h).1 m
  fields_sound r key (field k v fs) h (in_rest m) =
      fields_sound r key fs (object_passes r k v fs h).2 m

mutual
  unfolding check_forbidden_keys

  value_complete :
      (r : Runtime) (v : Value)
      → ((key : String) → KeyInside key v → ¬ (In (r.lower key) forbidden_keys))
      → check_forbidden_keys r v ≡ ok tt
  value_complete r null h = ground arith
  value_complete r (bool b) h = ground arith
  value_complete r (int n) h = ground arith
  value_complete r (float x) h = ground arith
  value_complete r (str s) h = ground arith
  value_complete r (arr vs) h = items_complete r vs (λ key m. h key (in_list m))
  value_complete r (obj fs) h = fields_complete r fs (λ key m. h key (in_object m))

  items_complete :
      (r : Runtime) (vs : Items)
      → ((key : String) → KeyInItems key vs → ¬ (In (r.lower key) forbidden_keys))
      → check_forbidden_keys r (arr vs) ≡ ok tt
  items_complete r nil h = ground arith
  items_complete r (cons v vs) h = ground (
    arith,
    value_complete r v (λ key m. h key (in_first m)),
    items_complete r vs (λ key m. h key (in_later m)),
  )

  fields_complete :
      (r : Runtime) (fs : Fields)
      → ((key : String) → KeyInFields key fs → ¬ (In (r.lower key) forbidden_keys))
      → check_forbidden_keys r (obj fs) ≡ ok tt
  fields_complete r end h = ground arith
  fields_complete r (field k v fs) h = elim (Bool-cases (contains forbidden_keys (r.lower k))) [
    | inl e ↦ absurd (h k (is_key refl) (contains-In forbidden_keys (r.lower k) e))
    | inr e ↦ ground (
      arith,
      value_complete r v (λ key m. h key (in_value m)),
      fields_complete r fs (λ key m. h key (in_rest m)),
    )
  ]

-- A value passes exactly when no key of an object inside it, lowered, is a forbidden name.
pub check_forbidden_keys_iff :
    (r : Runtime) (v : Value)
    → (check_forbidden_keys r v ≡ ok tt)
      ↔ ((key : String) → KeyInside key v → ¬ (In (r.lower key) forbidden_keys))
check_forbidden_keys_iff r v = ((λ h key m. value_sound r key v h m), value_complete r v)

-- No object inside an accepted program has a key that is a forbidden name once it is lowered.
pub validate_program-no_forbidden :
    (r : Runtime) (fs : Fields) (v : Value) (key : String)
    → validate_program r (obj fs) ≡ ok v
    → KeyInside key (obj fs)
    → ¬ (In (r.lower key) forbidden_keys)
validate_program-no_forbidden r fs v key h m =
    value_sound r key (obj fs) (validate_program-Accepted r fs v h).0.forbidden_ok m
