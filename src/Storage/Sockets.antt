-- ===== src/Storage/Sockets.antt =====
-- storage.py: `native_socket_candidates` and `validate_private_socket`, over the metadata that `lstat`
-- returns.
use Prim.Native.Nat.{Ordering}
use Prim.Native.String.{compare}
use llm_wiki_chrome.Prelude.{
  ℕ, ◌+◌, ◌/◌, ◌%◌, String, Bool, true, false, not, ◌&&◌, ◌||◌, ◌==◌, Option, none, some, List, [],
  ◌∷◌, ◌++◌, eqb, length, all, select, sort_by, map, if◌then◌else◌,
}
use llm_wiki_chrome.Result.{Result, err, storage_error, raise_if, ◌>>◌}
use llm_wiki_chrome.Text.{codes, prefix_of, is_hex}
use llm_wiki_chrome.Native.Frames.{skip}

-- An entry of the directory; `is_socket` is false where the test raises OSError.
pub record Entry : Type 0 where
  pub name : String
  pub is_socket : Bool

-- base.name, or base.name + "." and eight hexadecimal digits
unfoldable pub is_candidate_name : (base name : String) → Bool
is_candidate_name base name =
    name == base
    || (prefix_of (codes base ++ b'.' ∷ []) (codes name)
        && eqb (length (codes name)) (length (codes base) + 1 + 8)
        && all is_hex (skip (length (codes base) + 1) (codes name)))

abbrev is_below : Ordering → Bool
is_below Ordering.gt = false
is_below _ = true

-- The sort key (entry != base, entry.name) of `a` is not above that of `b`.
unfoldable pub sorts_before : (base a b : String) → Bool
sorts_before base a b =
    if a == base then true else if b == base then false else is_below (compare a b)

-- The names of the candidates; `none` where the directory cannot be read.
unfoldable pub native_socket_candidates : (base : String) → Option (List Entry) → List String
native_socket_candidates base none = []
native_socket_candidates base (some entries) =
    sort_by (sorts_before base)
      (map (λ e. e.name) (select (λ e. is_candidate_name base e.name && e.is_socket) entries))

-- `st_mode` and `st_uid`
pub record Metadata : Type 0 where
  pub mode : ℕ
  pub uid : ℕ

-- The file type in the bits above the twelfth: S_ISLNK, S_ISDIR and S_ISSOCK.
abbrev pub file_type : ℕ → ℕ
file_type mode = mode / 4096 % 16

abbrev pub type_link : ℕ
type_link = 10

abbrev pub type_directory : ℕ
type_directory = 4

abbrev pub type_socket : ℕ
type_socket = 12

-- `stat.S_IMODE(mode) & 0o077`
abbrev pub group_and_other : ℕ → ℕ
group_and_other mode = mode % 64

-- The metadata of the parent and of the socket, `none` where `lstat` raises OSError.
unfoldable pub validate_private_socket :
    (user : ℕ) → Option Metadata → Option Metadata → Result (Unit {0})
validate_private_socket user (some parent) (some metadata) = do
  raise_if
      (eqb (file_type parent.mode) type_link
        || not (eqb (file_type parent.mode) type_directory)
        || not (eqb parent.uid user)
        || not (eqb (group_and_other parent.mode) 0))
      (storage_error "executor connector parent is not private")
  raise_if
      (not (eqb (file_type metadata.mode) type_socket)
        || not (eqb metadata.uid user)
        || not (eqb (group_and_other metadata.mode) 0))
      (storage_error "executor connector is not a private user socket")
validate_private_socket user _ _ = err (storage_error "executor connector is unavailable")
