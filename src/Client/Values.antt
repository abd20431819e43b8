-- ===== src/Client/Values.antt =====
-- The private values that the client sends.
use llm_wiki_chrome.Prelude.{
  ◌≤◌, String, len, ◌≡◌, refl, ◌↔◌, true, In, All, List, [], ◌∷◌, arith, all, same_set,
}
use llm_wiki_chrome.Sets.{same_set-In}
use llm_wiki_chrome.Result.{ok}
use llm_wiki_chrome.Json.{
  Value, Fields, str, arr, obj, nil, keys, values as values_of, items_of, texts,
}
use llm_wiki_chrome.Runtime.{Runtime}
use llm_wiki_chrome.Protocol.Program.{get_or}
use llm_wiki_chrome.Client.Outcome.{is_small, check_private_values, validate_private_values}

check_private_values-parts :
    (r : Runtime) (program given : Fields) (v : Value)
    → check_private_values r program v ≡ ok given
    → (same_set (keys given) (texts (items_of (get_or "private_slots" (arr nil) program))) ≡ true)
      × (all is_small (values_of given) ≡ true)
unfolding check_private_values
check_private_values-parts r program given (obj fs) h = ground arith
check_private_values-parts r program given _ h = absurd (cc)

-- The value is a text of at most 16384 bytes.
abbrev pub SmallText : Value → Type 0
SmallText v = (s : String) × (v ≡ str s) × (len s ≤ 16384)

is_small-SmallText : (v : Value) → is_small v ≡ true → SmallText v
is_small-SmallText (str s) h = (s, refl, ground arith)
is_small-SmallText _ h = absurd (cc)

all-SmallText : (vs : List Value) → all is_small vs ≡ true → All SmallText vs
unfolding all
all-SmallText [] h = tt
all-SmallText (v ∷ vs) h = (is_small-SmallText v (ground arith), all-SmallText vs (ground arith))

-- Private values that pass have exactly the declared slots as keys, and each of the values is a text of at
-- most 16384 bytes.
pub validate_private_values-Exact :
    (r : Runtime) (program given : Fields) (values : Value) (key : String)
    → validate_private_values r program values ≡ ok given
    → (In key (keys given) ↔ In key (texts (items_of (get_or "private_slots" (arr nil) program))))
      × All SmallText (values_of given)
unfolding validate_private_values
validate_private_values-Exact r program given values key h =
    let (exact, small) = check_private_values-parts r program given _ h in
    (
      same_set-In (keys given) (texts (items_of (get_or "private_slots" (arr nil) program))) key
          exact,
      all-SmallText (values_of given) small,
    )
