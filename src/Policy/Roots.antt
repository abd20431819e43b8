-- ===== src/Policy/Roots.antt =====
-- policy.py: `_roots`, `LocalBrowserPolicy.load`, `_inside`, `validate_uploads` and
-- `validate_download`. A resolved path is the list of its components, the empty list the root.
use llm_wiki_chrome.Prelude.{
  String, Bool, true, false, not, ◌&&◌, ◌||◌, ◌==◌, Option, none, some, List, [], ◌∷◌, ltb, within,
  length, any, map, is_empty, subset, if◌then◌else◌,
}
use llm_wiki_chrome.Result.{Result, ok, err, policy_error, os_error, raise_if, ◌>>=◌, ◌>>◌}
use llm_wiki_chrome.Text.{starts_with}
use llm_wiki_chrome.Json.{Value, str, arr, obj, nil, to_list, keys}
use llm_wiki_chrome.Protocol.Program.{get_or}

abbrev pub FilePath : Type 0
FilePath = List String

-- What pathlib answers. `resolve` is Path(text).resolve(strict=True), `none` where it raises OSError.
pub record FileSystem : Type 0 where
  pub resolve : String → Option FilePath
  pub expand_and_resolve : String → Option FilePath
  pub is_dir : FilePath → Bool
  pub is_file : FilePath → Bool
  pub is_symlink : String → Bool

pub record LocalBrowserPolicy : Type 0 where
  pub upload_roots : List FilePath
  pub download_roots : List FilePath

abbrev pub no_roots : LocalBrowserPolicy
no_roots = record { upload_roots = []; download_roots = [] }

unfoldable pub same_path : FilePath → FilePath → Bool
same_path [] [] = true
same_path [] (b ∷ q) = false
same_path (a ∷ p) [] = false
same_path (a ∷ p) (b ∷ q) = a == b && same_path p q

-- `path.parents`
unfoldable pub parents : FilePath → List FilePath
parents [] = []
parents (a ∷ p) = [] ∷ map (λ q. a ∷ q) (parents p)

-- any(path == root or root in path.parents for root in roots)
unfoldable pub inside : FilePath → List FilePath → Bool
inside path roots = any (λ root. same_path path root || any (same_path root) (parents path)) roots

-- `resolve(strict=True)` raises OSError, which the code does not catch.
abbrev pub or_os_error : Option FilePath → Result FilePath
or_os_error none = err os_error
or_os_error (some path) = ok path

module _ (files : FileSystem) where
  unfoldable pub root_of : Value → Result FilePath
  root_of (str item) = do
    raise_if (not (starts_with item "/")) (policy_error "entries must be absolute paths")
    path ← or_os_error (files.expand_and_resolve item)
    raise_if (not (files.is_dir path)) (policy_error "entries must be directories")
    ok path
  root_of _ = err (policy_error "entries must be absolute paths")

  unfoldable pub each_root : List Value → Result (List FilePath)
  each_root [] = ok []
  each_root (v ∷ vs) = do path ← root_of v; rest ← each_root vs; ok (path ∷ rest)

  unfoldable pub roots_of : Value → Result (List FilePath)
  roots_of (arr vs) = do
    raise_if (ltb 16 (length (to_list vs))) (policy_error "must be a bounded array")
    each_root (to_list vs)
  roots_of _ = err (policy_error "must be a bounded array")

  unfoldable pub policy_of : Option Value → Result LocalBrowserPolicy
  policy_of (some (obj fs)) = do
    raise_if (not (subset (keys fs) ("upload_roots" ∷ "download_roots" ∷ [])))
        (policy_error "browser file policy contains unsupported fields")
    uploads ← roots_of (get_or "upload_roots" (arr nil) fs)
    downloads ← roots_of (get_or "download_roots" (arr nil) fs)
    ok (record { upload_roots = uploads; download_roots = downloads })
  policy_of (some _) = err (policy_error "browser file policy contains unsupported fields")
  policy_of none = err (policy_error "browser file policy is unreadable")

  -- `exists`: there is a policy file; `content`: its decoded text, `none` where reading raises OSError
  -- or decoding raises JSONDecodeError. A file that is not UTF-8 is not modelled.
  unfoldable pub load : (exists : Bool) (content : Option Value) → Result LocalBrowserPolicy
  load exists content = let found = policy_of content in if exists then found else ok no_roots

  unfoldable pub upload_path : List FilePath → Value → Result FilePath
  upload_path roots (str value) = do
    raise_if (not (starts_with value "/")) (policy_error "upload paths must be absolute")
    raise_if (files.is_symlink value)
        (policy_error "an upload path is outside the registered roots")
    path ← or_os_error (files.resolve value)
    raise_if (not (files.is_file path) || not (inside path roots))
        (policy_error "an upload path is outside the registered roots")
    ok path
  upload_path roots _ = err (policy_error "upload paths must be absolute")

  unfoldable pub each_upload : List FilePath → List Value → Result (List FilePath)
  each_upload roots [] = ok []
  each_upload roots (v ∷ vs) = do
    path ← upload_path roots v
    rest ← each_upload roots vs
    ok (path ∷ rest)

  unfoldable pub validate_uploads : LocalBrowserPolicy → Value → Result (List FilePath)
  validate_uploads policy (arr vs) = do
    raise_if (not (within 1 16 (length (to_list vs))))
        (policy_error "uploads must contain one to sixteen paths")
    raise_if (is_empty policy.upload_roots)
        (policy_error "no upload roots are registered in the local browser policy")
    each_upload policy.upload_roots (to_list vs)
  validate_uploads policy _ = err (policy_error "uploads must contain one to sixteen paths")

  unfoldable pub validate_download : LocalBrowserPolicy → Value → Result FilePath
  validate_download policy (str value) = do
    raise_if (not (starts_with value "/") || is_empty policy.download_roots)
        (policy_error "download path is outside the registered roots")
    raise_if (files.is_symlink value) (policy_error "download path is outside the registered roots")
    path ← or_os_error (files.resolve value)
    raise_if (not (files.is_file path) || not (inside path policy.download_roots))
        (policy_error "download path is outside the registered roots")
    ok path
  validate_download policy _ = err (policy_error "download path is outside the registered roots")
