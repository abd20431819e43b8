-- ===== src/Collaboration/Locator/Picked.antt =====
-- The object that is put together of the entries that are there.
use mathlib.Core.Path.{subst}
use llm_wiki_chrome.Prelude.{
  sym, not, ◌&&◌, String, ◌≡◌, refl, inl, inr, Bool, true, false, ◌==◌, Option, none, some, List,
  [], ◌∷◌, is_some, contains, unique, subset, any, In, map, arith, eq_iff, Bool-cases,
}
use llm_wiki_chrome.Sets.{In-contains}
use llm_wiki_chrome.Result.{Error, Result, ok, err, when, raise_if, ◌>>=◌}
use llm_wiki_chrome.Json.{Value, Fields, field, end, has, get, keys}
use llm_wiki_chrome.Collaboration.Locator.{optional, pick}

abbrev pub Table : Type 0
Table = List (String × Option Value)

-- The entry of a key, none where the key has none or is not in the table.
unfoldable pub lookup : String → Table → Option Value
lookup key [] = none
lookup key (entry ∷ rest) =
    let other = lookup key rest in elim (entry.0 == key) [ true ↦ entry.1 | false ↦ other ]

abbrev pub Each : (Value → Type 0) → Option Value → Type 0
Each P none = Unit
Each P (some v) = P v

-- What an entry that passed comes to.
pub optional-Each :
    (P : Value → Type 0) (key : String) (fs : Fields) (entry : Result Value) {o : Option Value}
    → ((w : Value) → entry ≡ ok w → P w)
    → optional key fs entry ≡ ok o
    → Each P o
optional-Each P key fs entry {o} passed h = split (has key fs) entry o passed h
  where
    split :
        (b : Bool) (m : Result Value) (o : Option Value)
        → ((w : Value) → m ≡ ok w → P w)
        → elim b [ true ↦ m >>= (λ v. ok (some v)) | false ↦ ok none ] ≡ ok o
        → Each P o
    split b m none passed h = tt
    split true (ok v) (some w) passed h = passed w (cc)
    split true (err e) (some w) passed h = absurd (cc)
    split false m (some w) passed h = absurd (cc)

pub optional-is_some :
    (key : String) (fs : Fields) (entry : Result Value) {o : Option Value}
    → has key fs ≡ true
    → optional key fs entry ≡ ok o
    → is_some o ≡ true
optional-is_some key fs entry {o} there h = split entry o (rw (optional, there) at h)
  where
    split :
        (m : Result Value) (o : Option Value) → (m >>= λ v. ok (some v)) ≡ ok o → is_some o ≡ true
    split m (some w) h = refl
    split (ok v) none h = absurd (cc)
    split (err e) none h = absurd (cc)

abbrev pub names : Table → List String
names t = map (λ entry. entry.0) t

has-absent : (key : String) (t : Table) → contains (names t) key ≡ false → has key (pick t) ≡ false
unfolding contains pick has
has-absent key [] h = refl
has-absent key ((k, none) ∷ rest) h = ground (arith, has-absent key rest)
has-absent key ((k, some v) ∷ rest) h = ground (arith, has-absent key rest)

pub has-pick :
    (key : String) (t : Table) → unique (names t) ≡ true → has key (pick t) ≡ is_some (lookup key t)
unfolding contains pick has unique lookup
has-pick key [] u = refl
has-pick key ((k, none) ∷ rest) u =
    ground (arith, has-pick key rest, has-absent key rest, eq_iff k key)
has-pick key ((k, some v) ∷ rest) u = ground (arith, has-pick key rest)

pub get-pick :
    (key : String) (v : Value) (t : Table)
    → unique (names t) ≡ true
    → lookup key t ≡ some v
    → get key (pick t) ≡ v
unfolding contains pick get unique lookup
get-pick key v [] u h = absurd (cc)
get-pick key v ((k, none) ∷ rest) u h = ground (arith, get-pick key v rest)
get-pick key v ((k, some w) ∷ rest) u h = ground (arith, get-pick key v rest)

-- The checks of a validator on one entry of the object.
module _ (key : String) (t : Table) (u : unique (names t) ≡ true) where
  pub picked-when :
      (check : Value → Result (Unit {0})) (o : Option Value)
      → lookup key t ≡ o
      → Each (λ v. check v ≡ ok tt) o
      → when (has key (pick t)) (check (get key (pick t))) ≡ ok tt
  picked-when check none q h = rw (has-pick key t u, q) refl
  picked-when check (some v) q h = rw (has-pick key t u, q, get-pick key v t u q) h

  pub picked-raise_if :
      (test : Value → Bool) (e : Error) (o : Option Value)
      → lookup key t ≡ o
      → Each (λ v. test v ≡ true) o
      → raise_if (has key (pick t) && not (test (get key (pick t)))) e ≡ ok tt
  picked-raise_if test e none q h = rw (has-pick key t u, q) refl
  picked-raise_if test e (some v) q h = rw (has-pick key t u, q, get-pick key v t u q, h) refl

pub subset-pick :
    (t : Table) (allowed : List String)
    → subset (names t) allowed ≡ true
    → subset (keys (pick t)) allowed ≡ true
unfolding subset keys pick
subset-pick [] allowed h = refl
subset-pick ((k, none) ∷ rest) allowed h = subset-pick rest allowed (ground arith)
subset-pick ((k, some v) ∷ rest) allowed h = ground (arith, subset-pick rest allowed)

pub any-keys :
    (key : String) (fs : Fields) (wanted : List String)
    → In key wanted
    → has key fs ≡ true
    → any (contains wanted) (keys fs) ≡ true
unfolding any keys has
any-keys key end wanted m h = absurd (cc)
any-keys key (field k v fs) wanted m h = elim (Bool-cases (k == key)) [
  | inl e ↦ ground (
    arith,
    eq_iff k key,
    In-contains wanted k (subst (λ x. In x wanted) (sym ((eq_iff k key).0 e)) m),
  )
  | inr e ↦ ground (arith, any-keys key fs wanted m)
]
