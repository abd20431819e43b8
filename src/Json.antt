-- ===== src/Json.antt =====
-- Values that `json.loads` builds, and Python's access to them. An object keeps its keys in order,
-- and a key that stands twice shows its first entry (`json.loads` never builds one).
use llm_wiki_chrome.Prelude.{
  ℕ, ◌*◌, ◌^◌, String, Bool, true, false, ◌||◌, List, [], ◌∷◌, ◌==◌, within, if◌then◌else◌,
  contains, ◌≡◌, arith, eq_iff,
}
use llm_wiki_chrome.Result.{Result, ok, err, type_error}

-- `negsuc n` is -(n + 1).
pub data ℤ : Type 0 where
  pos : ℕ → ℤ
  negsuc : ℕ → ℤ

-- A Python float: `dyadic m k` is m / 2 ** k.
pub data Float : Type 0 where
  dyadic : ℤ → ℕ → Float
  infinite : (positive : Bool) → Float
  nan : Float

mutual
  -- The entries of an object, in their order.
  pub data Fields : Type 0 where
    field : (key : String) (entry : Value) (others : Fields) → Fields
    end : Fields

  pub data Items : Type 0 where
    cons : (item : Value) (others : Items) → Items
    nil : Items

  pub data Value : Type 0 where
    null : Value
    bool : Bool → Value
    str : String → Value
    int : ℤ → Value
    float : Float → Value
    obj : Fields → Value
    arr : Items → Value

unfoldable pub to_list : Items → List Value
to_list nil = []
to_list (cons v vs) = v ∷ to_list vs

-- The items of a list, none of another value.
abbrev pub items_of : Value → List Value
items_of (arr vs) = to_list vs
items_of _ = []

-- `set(value)` of an object
unfoldable pub keys : Fields → List String
keys end = []
keys (field k v fs) = k ∷ keys fs

unfoldable pub values : Fields → List Value
values end = []
values (field k v fs) = v ∷ values fs

-- `key in value` of an object
unfoldable pub has : String → Fields → Bool
has key end = false
has key (field k v fs) = (k == key) || has key fs

-- `value.get(key)`: `None` where the key is missing
unfoldable pub get : String → Fields → Value
get key end = null
get key (field k v fs) = if k == key then v else get key fs

-- `value.pop(key, None)`, the object that is left
unfoldable pub without : String → Fields → Fields
without key end = end
without key (field k v fs) =
    let rest = without key fs in elim (k == key) [ true ↦ rest | false ↦ field k v rest ]

abbrev pub is_str : Value → Bool
is_str (str s) = true
is_str _ = false

abbrev pub is_bool : Value → Bool
is_bool (bool b) = true
is_bool _ = false

abbrev pub is_null : Value → Bool
is_null null = true
is_null _ = false

-- `value == text`
abbrev pub is_text : String → Value → Bool
is_text t (str s) = s == t
is_text t _ = false

-- `isinstance(value, str) and test(value)`
abbrev pub str_and : (String → Bool) → Value → Bool
str_and test (str s) = test s
str_and test _ = false

-- `type(value) is int and lo <= value <= hi`
abbrev pub int_within : ℕ → ℕ → Value → Bool
int_within lo hi (int (pos n)) = within lo hi n
int_within lo hi _ = false

-- `type(value) in {int, float} and lo <= value <= hi`
abbrev pub number_within : ℕ → ℕ → Value → Bool
number_within lo hi (int (pos n)) = within lo hi n
number_within lo hi (float (dyadic (pos n) k)) = within (lo * 2 ^ k) (hi * 2 ^ k) n
number_within lo hi _ = false

-- The texts of a list of values that are all texts.
unfoldable pub texts : List Value → List String
texts [] = []
texts (str s ∷ vs) = s ∷ texts vs
texts (_ ∷ vs) = texts vs

-- A list or an object cannot be hashed: `value in names` and `set(values)` raise on it.
abbrev pub is_hashable : Value → Bool
is_hashable (arr vs) = false
is_hashable (obj fs) = false
is_hashable _ = true

-- `value in names`, for a set of texts
unfoldable pub member : Value → List String → Result Bool
member (str s) names = ok (contains names s)
member (arr vs) names = err type_error
member (obj fs) names = err type_error
member _ names = ok false

pub is_text-str : (t : String) (v : Value) → is_text t v ≡ true → v ≡ str t
is_text-str t (str s) h = ground (arith, eq_iff s t)
is_text-str t _ h = absurd (cc)

-- An object and a list, written out.
abbrev pub dict : List (String × Value) → Fields
dict [] = end
dict ((key, v) ∷ rest) = field key v (dict rest)

abbrev pub items : List Value → Items
items [] = nil
items (v ∷ vs) = cons v (items vs)

abbrev pub array : List Value → Value
array vs = arr (items vs)

abbrev pub text_items : List String → Items
text_items [] = nil
text_items (s ∷ ss) = cons (str s) (text_items ss)

abbrev pub text_array : List String → Value
text_array ss = arr (text_items ss)
