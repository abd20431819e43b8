-- ===== src/Text.antt =====
-- Python's tests on texts, over code points: prefixes, suffixes, characters, and the regular
-- expressions of the program as matchers.
use Prim.Native.Char.{code}
use llm_wiki_chrome.Prelude.{
  ℕ, zero, suc, String, Bool, true, false, ◌&&◌, ◌||◌, List, [], ◌∷◌, eqb, within, any, all, length,
}

abbrev pub codes : String → List ℕ
codes String.[] = []
codes (String.◌∷◌ c s) = code c ∷ codes s

-- `s.startswith(t)`, the pattern first
unfoldable pub prefix_of : List ℕ → List ℕ → Bool
prefix_of [] s = true
prefix_of (p ∷ ps) [] = false
prefix_of (p ∷ ps) (c ∷ s) = eqb p c && prefix_of ps s

-- the last character is `c`
unfoldable pub ends_in : ℕ → List ℕ → Bool
ends_in c [] = false
ends_in c (d ∷ []) = eqb d c
ends_in c (d ∷ e ∷ s) = ends_in c (e ∷ s)

abbrev pub starts_with : String → String → Bool
starts_with s t = prefix_of (codes t) (codes s)

abbrev pub has_char : ℕ → String → Bool
has_char c s = any (eqb c) (codes s)

abbrev pub is_lower : ℕ → Bool
is_lower c = within b'a' b'z' c

abbrev pub is_upper : ℕ → Bool
is_upper c = within b'A' b'Z' c

abbrev pub is_digit : ℕ → Bool
is_digit c = within b'0' b'9' c

abbrev pub is_hex : ℕ → Bool
is_hex c = within b'0' b'9' c || within b'a' b'f' c

abbrev pub lower_edge : ℕ → Bool
lower_edge c = is_lower c || is_digit c

abbrev pub lower_inner : ℕ → Bool
lower_inner c = lower_edge c || eqb c b'-'

abbrev pub field_inner : ℕ → Bool
field_inner c = lower_edge c || eqb c b'.' || eqb c b'_' || eqb c b'-'

abbrev pub any_edge : ℕ → Bool
any_edge c = is_lower c || is_upper c || is_digit c

abbrev pub any_inner : ℕ → Bool
any_inner c = any_edge c || eqb c b'.' || eqb c b'_' || eqb c b'-'

-- `[inner]{0,most}[edge]`, to the end
unfoldable pub match_tail : (edge inner : ℕ → Bool) → ℕ → List ℕ → Bool
match_tail edge inner most [] = false
match_tail edge inner most (c ∷ []) = edge c
match_tail edge inner zero (c ∷ d ∷ s) = false
match_tail edge inner (suc most) (c ∷ d ∷ s) = inner c && match_tail edge inner most (d ∷ s)

-- `^[edge](?:[inner]{0,most}[edge])?$` under `fullmatch`
unfoldable pub match_edges : (edge inner : ℕ → Bool) → ℕ → List ℕ → Bool
unfolding match_tail
match_edges edge inner most [] = false
match_edges edge inner most (c ∷ []) = edge c
match_edges edge inner most (c ∷ d ∷ s) = edge c && match_tail edge inner most (d ∷ s)

unfoldable pub is_identifier : String → Bool
unfolding match_edges
is_identifier s = match_edges lower_edge lower_inner 62 (codes s)

unfoldable pub is_program_identifier : String → Bool
unfolding match_edges
is_program_identifier s = match_edges any_edge any_inner 126 (codes s)

unfoldable pub is_private_field : String → Bool
unfolding match_edges
is_private_field s = match_edges lower_edge field_inner 126 (codes s)

-- `^[a-f0-9]{64}$` under `fullmatch`
unfoldable pub is_sha256 : String → Bool
unfolding all
is_sha256 s = eqb (length (codes s)) 64 && all is_hex (codes s)

abbrev is_repeat : ℕ → Bool
is_repeat c = eqb c b'+' || eqb c b'*' || eqb c b'?'

-- `re.search(r"(?:[+*?]){2,}", s)`
unfoldable pub has_stacked_repeat : List ℕ → Bool
has_stacked_repeat [] = false
has_stacked_repeat (c ∷ []) = false
has_stacked_repeat (c ∷ d ∷ s) = (is_repeat c && is_repeat d) || has_stacked_repeat (d ∷ s)

-- what may follow the backslash of a back reference: `[1-9]` or `k[<{]`
unfoldable pub names_group : List ℕ → Bool
names_group [] = false
names_group (c ∷ []) = within b'1' b'9' c
names_group (c ∷ d ∷ s) = within b'1' b'9' c || (eqb c b'k' && (eqb d b'<' || eqb d b'{'))

-- `re.search(r"\\(?:[1-9]|k[<{])", s)`
unfoldable pub has_back_reference : List ℕ → Bool
unfolding names_group
has_back_reference [] = false
has_back_reference (c ∷ s) = (eqb c 92 && names_group s) || has_back_reference s
