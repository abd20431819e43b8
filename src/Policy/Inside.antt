-- ===== src/Policy/Inside.antt =====
-- Files that the policy admits lie below a registered root.
use llm_wiki_chrome.Prelude.{
  ◌≤◌, suc, String, ◌≡◌, ◌∙◌, refl, sym, ap, inl, inr, true, ◌||◌, eq_iff, Option-cases, List, [],
  ◌∷◌, ◌++◌, length, any, map, In, All, arith, Bool-cases,
}
use mathlib.Core.Path.{subst}
use mathlib.Core.List.{append-nil}
use llm_wiki_chrome.Sets.{any-In}
use llm_wiki_chrome.Result.{ok}
use llm_wiki_chrome.Json.{Value, Items, str, arr, to_list}
use llm_wiki_chrome.Policy.Roots.{
  FilePath, FileSystem, LocalBrowserPolicy, same_path, parents, inside, upload_path, each_upload,
  validate_uploads, validate_download,
}

-- The path is the root, or lies below it.
abbrev pub Below : FilePath → FilePath → Type 0
Below root path = (rest : FilePath) × (path ≡ root ++ rest)

same_path-eq : (p q : FilePath) → same_path p q ≡ true → p ≡ q
unfolding same_path
same_path-eq [] [] h = refl
same_path-eq [] (b ∷ q) h = absurd (cc)
same_path-eq (a ∷ p) [] h = absurd (cc)
same_path-eq (a ∷ p) (b ∷ q) h = ground (arith, eq_iff a b, same_path-eq p q)

same_path_refl : (p : FilePath) → same_path p p ≡ true
unfolding same_path
same_path_refl [] = refl
same_path_refl (a ∷ p) = ground (arith, eq_iff a a, same_path_refl p)

In-map_cons :
    (a : String) (qs : List FilePath) (r : FilePath)
    → In r (map (λ q. a ∷ q) qs)
    → (q : FilePath) × In q qs × (r ≡ a ∷ q)
In-map_cons a [] r m = elim m [ ]
In-map_cons a (q ∷ qs) r (inl e) = (q, inl refl, e)
In-map_cons a (q ∷ qs) r (inr m) = let (q', k, e) = In-map_cons a qs r m in (q', inr k, e)

parents-Below : (path root : FilePath) → In root (parents path) → Below root path
unfolding parents
parents-Below [] root m = elim m [ ]
parents-Below (a ∷ p) root (inl e) = (a ∷ p, ground arith)
parents-Below (a ∷ p) root (inr m) =
    let (q, k, e) = In-map_cons a (parents p) root m in
    let (rest, f) = parents-Below p q k in (rest, ground arith)

-- A path that passes the test is one of the roots or lies below one.
pub inside-Below :
    (path : FilePath) (roots : List FilePath)
    → inside path roots ≡ true
    → (root : FilePath) × In root roots × Below root path
unfolding inside
inside-Below path roots h =
    let (root, m, q) =
      any-In (λ root. same_path path root || any (same_path root) (parents path)) roots h in
    (root, m, below root q)
  where
    below :
        (root : FilePath)
        → (same_path path root || any (same_path root) (parents path)) ≡ true
        → Below root path
    below root q = elim (Bool-cases (same_path path root)) [
      | inl e ↦ ([], same_path-eq path root e ∙ sym (append-nil root))
      | inr e ↦
          let (p, k, f) = any-In (same_path root) (parents path) (ground arith) in
          parents-Below path root (subst (λ x. In x (parents path)) (sym (same_path-eq root p f)) k)
    ]

module _ (files : FileSystem) where
  -- The file is a regular one below a root.
  abbrev pub Registered : List FilePath → FilePath → Type 0
  Registered roots path =
      (files.is_file path ≡ true) × ((root : FilePath) × In root roots × Below root path)

  upload_path-tests :
      (roots : List FilePath) (v : Value) (path : FilePath)
      → upload_path files roots v ≡ ok path
      → (files.is_file path ≡ true) × (inside path roots ≡ true)
  unfolding upload_path
  upload_path-tests roots (str value) path h = elim (Option-cases (files.resolve value)) [
    | inl e ↦ absurd (ground arith)
    | inr (p, e) ↦ ground arith
  ]
  upload_path-tests roots _ path h = absurd (cc)

  each_upload-cons :
      (roots : List FilePath) (v : Value) (vs : List Value) (paths : List FilePath)
      → each_upload files roots (v ∷ vs) ≡ ok paths
      → (path : FilePath) × (rest : List FilePath) × (upload_path files roots v ≡ ok path)
        × (each_upload files roots vs ≡ ok rest)
        × (paths ≡ path ∷ rest)
  unfolding each_upload
  each_upload-cons roots v vs paths h = ground arith

  each_upload-nil :
      (roots : List FilePath) (paths : List FilePath)
      → each_upload files roots [] ≡ ok paths
      → paths ≡ []
  unfolding each_upload
  each_upload-nil roots paths h = ground arith

  each_upload-Registered :
      (roots : List FilePath) (vs : List Value) (paths : List FilePath)
      → each_upload files roots vs ≡ ok paths
      → All (Registered roots) paths × (length paths ≡ length vs)
  each_upload-Registered roots [] paths h =
      subst (λ ps. All (Registered roots) ps × (length ps ≡ 0))
        (sym (each_upload-nil roots paths h)) (tt, refl)
  each_upload-Registered roots (v ∷ vs) paths h =
      let (path, rest, first, later, q) = each_upload-cons roots v vs paths h in
      let (file, below) = upload_path-tests roots v path first in
      let (all_rest, same) = each_upload-Registered roots vs rest later in
      subst (λ ps. All (Registered roots) ps × (length ps ≡ suc (length vs))) (sym q)
        (((file, inside-Below path roots below), all_rest), ap suc same)

  validate_uploads-steps :
      (policy : LocalBrowserPolicy) (vs : Items) (paths : List FilePath)
      → validate_uploads files policy (arr vs) ≡ ok paths
      → (length (to_list vs) ≤ 16) × (each_upload files policy.upload_roots (to_list vs) ≡ ok paths)
  unfolding validate_uploads
  validate_uploads-steps policy vs paths h = ground arith

  -- The uploads that the policy admits are at most sixteen, one for each path of the request, and each is a
  -- regular file at or below a registered upload root.
  pub validate_uploads-Registered :
      (policy : LocalBrowserPolicy) (vs : Items) (paths : List FilePath)
      → validate_uploads files policy (arr vs) ≡ ok paths
      → All (Registered policy.upload_roots) paths
        × (length paths ≡ length (to_list vs))
        × (length paths ≤ 16)
  validate_uploads-Registered policy vs paths h =
      let (few, each) = validate_uploads-steps policy vs paths h in
      let (registered, same) = each_upload-Registered policy.upload_roots (to_list vs) paths each in
      (registered, same, omega arith)

  validate_download-tests :
      (policy : LocalBrowserPolicy) (v : Value) (path : FilePath)
      → validate_download files policy v ≡ ok path
      → (files.is_file path ≡ true) × (inside path policy.download_roots ≡ true)
  unfolding validate_download
  validate_download-tests policy (str value) path h = elim (Option-cases (files.resolve value)) [
    | inl e ↦ absurd (ground arith)
    | inr (p, e) ↦ ground arith
  ]
  validate_download-tests policy _ path h = absurd (cc)

  -- A download that the policy admits is a regular file at or below a registered download root.
  pub validate_download-Registered :
      (policy : LocalBrowserPolicy) (v : Value) (path : FilePath)
      → validate_download files policy v ≡ ok path
      → Registered policy.download_roots path
  validate_download-Registered policy v path h =
      let (file, below) = validate_download-tests policy v path h in
      (file, inside-Below path policy.download_roots below)
