-- ===== src/Protocol/Paths.antt =====
-- Which paths a prefix admits.
use llm_wiki_chrome.Prelude.{
  ℕ, String, ◌≡◌, ◌∙◌, ◌↔◌, refl, sym, inl, inr, true, ◌==◌, eq_iff, List, [], ◌∷◌, ◌++◌, arith,
  Bool-cases,
}
use mathlib.Core.Path.{subst}
use llm_wiki_chrome.Text.{codes, prefix_of, ends_in}
use llm_wiki_chrome.Protocol.Checks.{path_matches_prefix}

pub prefix_of-append : (p s : List ℕ) → prefix_of p s ≡ true → (rest : List ℕ) × (s ≡ p ++ rest)
unfolding prefix_of
prefix_of-append [] s h = (s, refl)
prefix_of-append (c ∷ p) [] h = absurd (ground arith)
prefix_of-append (c ∷ p) (d ∷ s) h =
    let (rest, q) = prefix_of-append p s (ground arith) in (rest, ground arith)

pub append-prefix_of : (p rest : List ℕ) → prefix_of p (p ++ rest) ≡ true
unfolding prefix_of
append-prefix_of [] rest = refl
append-prefix_of (c ∷ p) rest = ground (arith, append-prefix_of p rest)

-- The path is the prefix, or goes on behind it at a slash: the prefix's last or the next character.
pub data Admits (path prefix : String) : Type 0 where
  whole : path ≡ prefix → Admits path prefix
  below_slash :
      (rest : List ℕ)
      → ends_in b'/' (codes prefix) ≡ true
      → codes path ≡ codes prefix ++ rest
      → Admits path prefix
  below : (rest : List ℕ) → codes path ≡ codes prefix ++ (b'/' ∷ rest) → Admits path prefix

append_slash : (p rest : List ℕ) → (p ++ b'/' ∷ []) ++ rest ≡ p ++ (b'/' ∷ rest)
append_slash [] rest = refl
append_slash (c ∷ p) rest = ground (arith, append_slash p rest)

matches-Admits :
    (path prefix : String) → path_matches_prefix path prefix ≡ true → Admits path prefix
unfolding path_matches_prefix
matches-Admits path prefix h = elim (Bool-cases (path == prefix)) [
  | inl e ↦ whole ((eq_iff path prefix).0 e)
  | inr e ↦ elim (Bool-cases (prefix_of (codes prefix ++ b'/' ∷ []) (codes path))) [
    | inl f ↦
        let (rest, q) = prefix_of-append (codes prefix ++ b'/' ∷ []) (codes path) f in
        below rest (q ∙ append_slash (codes prefix) rest)
    | inr f ↦
        let (rest, q) = prefix_of-append (codes prefix) (codes path) (ground arith) in
        below_slash rest (ground arith) q
  ]
]

Admits-matches :
    (path prefix : String) → Admits path prefix → path_matches_prefix path prefix ≡ true
unfolding path_matches_prefix
Admits-matches path prefix (whole e) = ground (arith, eq_iff path prefix)
Admits-matches path prefix (below_slash rest e q) = ground (
  arith,
  subst (λ s. prefix_of (codes prefix) s ≡ true) (sym q) (append-prefix_of (codes prefix) rest),
)
Admits-matches path prefix (below rest q) = ground (
  arith,
  subst (λ s. prefix_of (codes prefix ++ b'/' ∷ []) s ≡ true)
      (append_slash (codes prefix) rest ∙ sym q)
      (append-prefix_of (codes prefix ++ b'/' ∷ []) rest),
)

-- A prefix admits a path exactly when the path is the prefix or goes on behind it at a slash.
pub path_matches_prefix_iff :
    (path prefix : String) → (path_matches_prefix path prefix ≡ true) ↔ Admits path prefix
path_matches_prefix_iff path prefix = (matches-Admits path prefix, Admits-matches path prefix)
