-- ===== src/Storage/Candidates.antt =====
-- Which sockets of a directory are candidates.
use llm_wiki_chrome.Prelude.{String, ◌≡◌, ◌↔◌, Bool, true, ◌&&◌, some, List, map, select, In, arith}
use mathlib.Core.Path.{subst}
use llm_wiki_chrome.Sets.{sort_by-In}
use llm_wiki_chrome.Picked.{select-In, In-select, In-map, map-In}
use llm_wiki_chrome.Storage.Sockets.{
  Entry, is_candidate_name, sorts_before, native_socket_candidates,
}

-- A socket of the directory with that name, the base's or one of its instances'.
record Candidate (base name : String) (entries : List Entry) : Type 0 where
  pub entry : Entry
  pub listed : In entry entries
  pub named : entry.name ≡ name
  pub of_base : is_candidate_name base entry.name ≡ true
  pub is_socket : entry.is_socket ≡ true

module _ (base : String) (entries : List Entry) where
  abbrev picks : Entry → Bool
  picks e = is_candidate_name base e.name && e.is_socket

  abbrev picked : List String
  picked = map (λ e. e.name) (select picks entries)

  picked-Candidate : (name : String) → In name picked → Candidate base name entries
  picked-Candidate name m =
      let (e, k, q) = In-map (λ e. e.name) (select picks entries) name m in
      let (there, holds) = select-In picks entries e k in
      record {
        entry = e;
        listed = there;
        named = q;
        of_base = ground arith;
        is_socket = ground arith;
      }

  Candidate-picked : (name : String) → Candidate base name entries → In name picked
  Candidate-picked name c =
      subst (λ n. In n picked) c.named
        (map-In (λ e. e.name) (select picks entries) c.entry
          (In-select picks entries c.entry c.listed (ground (arith, c.of_base, c.is_socket))))

  -- The names that the client and the tools are offered are exactly those of the sockets in the directory
  -- whose name is the base's, or the base's with a point and eight hexadecimal digits.
  native_socket_candidates_iff :
      (name : String)
      → In name (native_socket_candidates base (some entries)) ↔ Candidate base name entries
  unfolding native_socket_candidates
  native_socket_candidates_iff name = (
    λ m. picked-Candidate name ((sort_by-In (sorts_before base) name picked).0 m),
    λ c. (sort_by-In (sorts_before base) name picked).1 (Candidate-picked name c),
  )
