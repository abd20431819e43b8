-- ===== src/Result.antt =====
-- Exceptions as values. A reason is the fixed part of the message; the path that the source puts
-- before it (an f-string) is left out. `type_error`, `value_error`, `key_error` and `os_error` are the
-- built-in exceptions that Python raises where the code has no check of its own, and `callback_error` is
-- whatever a callback raises.
use llm_wiki_chrome.Prelude.{String, ◌≡◌, ◌⊎◌, inl, inr, refl, Bool, true, false}

pub data Error : Type 0 where
  protocol_error client_error native_error policy_error storage_error driver_error
        collaboration_error :
      String → Error
  type_error value_error key_error os_error callback_error : Error

pub data Result {ℓ} (Returned : Type ℓ) : Type ℓ where
  err : (raised : Error) → Result Returned
  ok : (value : Returned) → Result Returned

-- A statement behind another one that may raise.
infixl 5 ◌>>=◌ ◌>>◌
abbrev pub ◌>>=◌ {ℓ κ} : {X : Type ℓ} {Y : Type κ} → Result X → (next : X → Result Y) → Result Y
err raised >>= next = err raised
ok x >>= next = next x

-- The statement in front returns nothing.
abbrev pub ◌>>◌ {κ} : {Y : Type κ} → (check : Result (Unit {0})) → (rest : Result Y) → Result Y
check >> rest = check >>= λ done. rest

-- `if test: raise e`
abbrev pub raise_if : Bool → Error → Result (Unit {0})
raise_if true e = err e
raise_if false e = ok tt

-- `if test:` before a block that may raise
abbrev pub when : Bool → Result (Unit {0}) → Result (Unit {0})
when true m = m
when false m = ok tt

-- The check alone, its value dropped.
abbrev pub checked {ℓ} : {A : Type ℓ} → Result A → Result (Unit {0})
checked m = m >>= λ _. ok tt

pub ok-injective {ℓ} : {A : Type ℓ} {a b : A} → ok a ≡ ok b → a ≡ b
ok-injective h = cc

pub Result-cases {ℓ} :
    {A : Type ℓ} (m : Result A) → ((a : A) × (m ≡ ok a)) ⊎ ((e : Error) × (m ≡ err e))
Result-cases (ok a) = inl (a, refl)
Result-cases (err e) = inr (e, refl)

-- A block that returns has run its first statement and then the rest on what that returned.
pub bind-ok {ℓ κ} :
    {X : Type ℓ} {Y : Type κ} (first : Result X) (next : X → Result Y) {y : Y}
    → (first >>= next) ≡ ok y
    → (x : X) × (first ≡ ok x) × (next x ≡ ok y)
bind-ok (err raised) next h = cc
bind-ok (ok x) next h = (x, refl, h)

pub then-ok {ℓ} :
    {B : Type ℓ} (m : Result (Unit {0})) (k : Result B) {b : B}
    → (m >> k) ≡ ok b
    → (m ≡ ok tt) × (k ≡ ok b)
then-ok (ok tt) k h = (refl, h)
then-ok (err e) k h = cc

pub raise_if-ok : (t : Bool) (e : Error) → raise_if t e ≡ ok tt → t ≡ false
raise_if-ok true e h = cc
raise_if-ok false e h = refl

pub when-ok : (t : Bool) (m : Result (Unit {0})) → when t m ≡ ok tt → t ≡ true → m ≡ ok tt
when-ok true m h e = h
when-ok false m h e = cc

-- The rest of a block that starts with a check.
pub past_check {ℓ} :
    {B : Type ℓ} (t : Bool) (e : Error) (k : Result B) {b : B}
    → (raise_if t e >> k) ≡ ok b
    → (t ≡ false) × (k ≡ ok b)
past_check true e k h = cc
past_check false e k h = (refl, h)
