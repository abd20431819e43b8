-- ===== src/Grants/Valid.antt =====
-- What a validated workspace holds.
use llm_wiki_chrome.Prelude.{
  ◌≤◌, String, len, ◌≡◌, refl, sym, ap, inl, inr, true, false, eq_iff, Option, none, some,
  Option-cases, List, [], ◌∷◌, length, unique, is_some, map, arith, In, All, Distinct, suc,
}
use mathlib.Core.Path.{subst}
use llm_wiki_chrome.Sets.{unique-Distinct, contains-In}
use llm_wiki_chrome.Result.{ok}
use llm_wiki_chrome.Text.{is_sha256}
use llm_wiki_chrome.Json.{Value, Items, Fields, null, str, arr, obj, to_list, get}
use llm_wiki_chrome.Runtime.{Runtime, Url}
use llm_wiki_chrome.Protocol.Target.{origin_of, lacks_host}
use llm_wiki_chrome.Grants.Defs.{
  Grant, Workspace, Reasons, check_grant, grant_texts, validate_grant, validate_grants,
  validate_selected, validate_list, validate_workspace,
}

-- A grant has an id of 64 hexadecimal digits and a bounded HTTPS URL with a host, without user and
-- password, and its origin is exactly that of its URL.
pub record IsGrant (r : Runtime) (g : Grant) : Type 0 where
  pub parsed_url : Url
  pub exact_id : is_sha256 g.collaboration_id ≡ true
  pub bounded : len g.url ≤ 16384
  pub parsed : r.urlsplit g.url ≡ some parsed_url
  pub https : parsed_url.scheme ≡ "https"
  pub has_host : lacks_host parsed_url.hostname ≡ false
  pub no_user : is_some parsed_url.username ≡ false
  pub no_password : is_some parsed_url.password ≡ false
  pub exact_origin : g.origin ≡ origin_of parsed_url

abbrev pub ids : List Grant → List String
ids grants = map (λ g. g.collaboration_id) grants

abbrev pub urls : List Grant → List String
urls grants = map (λ g. g.url) grants

-- The selected grant, if there is one, is among the grants.
abbrev pub IsSelection : Option String → List Grant → Type 0
IsSelection none grants = Unit
IsSelection (some s) grants = (is_sha256 s ≡ true) × In s (ids grants)

pub record IsWorkspace (r : Runtime) (w : Workspace) : Type 0 where
  pub bounded : length w.collaborations ≤ 16
  pub grants : All (IsGrant r) w.collaborations
  pub distinct_ids : Distinct (ids w.collaborations)
  pub distinct_urls : Distinct (urls w.collaborations)
  pub selection : IsSelection w.selected w.collaborations

module _ (r : Runtime) (reasons : Reasons) where
  check_grant-IsGrant :
      (id raw_url raw_origin : String) (g : Grant)
      → check_grant r reasons id raw_url raw_origin ≡ ok g
      → IsGrant r g
  unfolding check_grant
  check_grant-IsGrant id raw_url raw_origin g h = elim (Option-cases (r.urlsplit raw_url)) [
    | inl e ↦ absurd (ground arith)
    | inr (url, e) ↦ record {
      parsed_url = url;
      exact_id = ground arith;
      bounded = ground arith;
      parsed = ground arith;
      https = ground (arith, eq_iff url.scheme "https");
      has_host = ground arith;
      no_user = ground arith;
      no_password = ground arith;
      exact_origin = ground (arith, eq_iff raw_origin (origin_of url));
    }
  ]

  grant_texts-IsGrant :
      (a b c : Value) (g : Grant) → grant_texts r reasons a b c ≡ ok g → IsGrant r g
  unfolding grant_texts
  grant_texts-IsGrant (str a) (str b) (str c) g h = check_grant-IsGrant a b c g h
  grant_texts-IsGrant _ _ _ g h = absurd (cc)

  validate_grant-IsGrant : (v : Value) (g : Grant) → validate_grant r reasons v ≡ ok g → IsGrant r g
  unfolding validate_grant
  validate_grant-IsGrant (obj fs) g h =
      grant_texts-IsGrant (get "collaboration_id" fs) (get "url" fs) (get "origin" fs) g
        (ground arith)
  validate_grant-IsGrant _ g h = absurd (cc)

  validate_grants-cons :
      (v : Value) (vs : List Value) (grants : List Grant)
      → validate_grants r reasons (v ∷ vs) ≡ ok grants
      → (g : Grant) × (rest : List Grant) × (validate_grant r reasons v ≡ ok g)
        × (validate_grants r reasons vs ≡ ok rest)
        × (grants ≡ g ∷ rest)
  unfolding validate_grants
  validate_grants-cons v vs grants h = ground arith

  validate_grants-nil :
      (grants : List Grant) → validate_grants r reasons [] ≡ ok grants → grants ≡ []
  unfolding validate_grants
  validate_grants-nil grants h = ground arith

  validate_grants-IsGrant :
      (vs : List Value) (grants : List Grant)
      → validate_grants r reasons vs ≡ ok grants
      → All (IsGrant r) grants × (length grants ≡ length vs)
  validate_grants-IsGrant [] grants h =
      subst (λ gs. All (IsGrant r) gs × (length gs ≡ 0)) (sym (validate_grants-nil grants h))
        (tt, refl)
  validate_grants-IsGrant (v ∷ vs) grants h =
      let (g, rest, first, later, q) = validate_grants-cons v vs grants h in
      let (all_rest, same) = validate_grants-IsGrant vs rest later in
      subst (λ gs. All (IsGrant r) gs × (length gs ≡ suc (length vs))) (sym q)
        ((validate_grant-IsGrant v g first, all_rest), ap suc same)

  validate_selected-IsSelection :
      (v : Value) (grants : List Grant) (s : Option String)
      → validate_selected r reasons v (ids grants) ≡ ok s
      → IsSelection s grants
  unfolding validate_selected
  validate_selected-IsSelection null grants s h =
      subst (λ o. IsSelection o grants) (some_value h) tt
    where
      some_value : validate_selected r reasons null (ids grants) ≡ ok s → none ≡ s
      some_value k = cc
  validate_selected-IsSelection (str t) grants s h =
      subst (λ o. IsSelection o grants) (chosen h)
        (ground arith, contains-In (ids grants) t (ground arith))
    where
      chosen : validate_selected r reasons (str t) (ids grants) ≡ ok s → some t ≡ s
      chosen k = ground arith
  validate_selected-IsSelection _ grants s h = absurd (cc)

  -- What the test of a list of grants leaves.
  validate_list-steps :
      (selected : Value) (vs : Items) (w : Workspace)
      → validate_list r reasons selected (arr vs) ≡ ok w
      → (length (to_list vs) ≤ 16)
        × (validate_grants r reasons (to_list vs) ≡ ok w.collaborations)
        × (unique (ids w.collaborations) ≡ true)
        × (unique (urls w.collaborations) ≡ true)
        × (validate_selected r reasons selected (ids w.collaborations) ≡ ok w.selected)
  unfolding validate_list
  validate_list-steps selected vs w h = ground arith

  validate_list-IsWorkspace :
      (selected list : Value) (w : Workspace)
      → validate_list r reasons selected list ≡ ok w
      → IsWorkspace r w
  unfolding validate_list
  validate_list-IsWorkspace selected (arr vs) w h =
      let (small, all_ok, one_id, one_url, chosen) = validate_list-steps selected vs w h in
      let (grants, same) = validate_grants-IsGrant (to_list vs) w.collaborations all_ok in
      record {
        bounded = omega arith;
        grants = grants;
        distinct_ids = unique-Distinct (ids w.collaborations) one_id;
        distinct_urls = unique-Distinct (urls w.collaborations) one_url;
        selection = validate_selected-IsSelection selected w.collaborations w.selected chosen;
      }
  validate_list-IsWorkspace selected _ w h = absurd (cc)

  -- A workspace that is accepted, from either message type, has at most sixteen grants with distinct ids
  -- and distinct URLs, each grant is exact, and a selected id is that of one of them.
  pub validate_workspace-IsWorkspace :
      (message_type : String) (fs : Fields) (w : Workspace)
      → validate_workspace r reasons message_type fs ≡ ok w
      → IsWorkspace r w
  unfolding validate_workspace
  validate_workspace-IsWorkspace message_type fs w h =
      validate_list-IsWorkspace (get "selected_collaboration_id" fs) (get "collaborations" fs) w
        (ground arith)
