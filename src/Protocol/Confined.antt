-- ===== src/Protocol/Confined.antt =====
-- Where the navigation of an accepted program may lead, and what its actions may name.
use mathlib.Core.Path.{subst}
use llm_wiki_chrome.Prelude.{
  sym, if◌then◌else◌, ◌≤◌, String, len, ◌≡◌, refl, inl, inr, true, false, ◌==◌, eq_iff, List, [],
  ◌∷◌, arith, In, contains, any, is_some, Option, none, some, Option-cases,
}
use llm_wiki_chrome.Sets.{In-contains, any-In}
use llm_wiki_chrome.Result.{ok}
use llm_wiki_chrome.Json.{is_text-str, Value, Fields, str, obj, get, is_text}
use llm_wiki_chrome.Runtime.{Runtime, Url}
use llm_wiki_chrome.Protocol.Checks.{path_matches_prefix}
use llm_wiki_chrome.Protocol.Actions.{iter_actions, max_levels}
use llm_wiki_chrome.Protocol.Target.{prefixes_of, origin_of, validate_navigation_url}
use llm_wiki_chrome.Protocol.Interaction.{check_navigation}
use llm_wiki_chrome.Protocol.Order.{fields_of, op_of}
use llm_wiki_chrome.Protocol.Program.{validate_program}
use llm_wiki_chrome.Protocol.Accepted.{actions_of}
use llm_wiki_chrome.Protocol.Paths.{Admits, path_matches_prefix_iff}
use llm_wiki_chrome.Protocol.Checked.{Checked, facts, validate_program-Checked}

-- A text whose URL is HTTPS, without user, password and fragment, has the target's origin, and lies
-- under one of the target's prefixes.
pub record Confined (r : Runtime) (target : Fields) (v : Value) : Type 0 where
  pub raw : String
  pub url : Url
  pub prefix : String
  pub is_raw : v ≡ str raw
  pub is_bounded : len raw ≤ 16384
  pub parsed : r.urlsplit raw ≡ some url
  pub https : url.scheme ≡ "https"
  pub no_user : url.username ≡ none
  pub no_password : url.password ≡ none
  pub no_fragment : url.fragment ≡ ""
  pub same_origin : get "origin" target ≡ str (origin_of url)
  pub declared : In prefix (prefixes_of (get "path_prefixes" target))
  pub admitted : Admits url.path prefix

-- What the test of the parsed URL leaves.
record UrlPasses (target : Fields) (url : Url) : Type 0 where
  https : (url.scheme == "https") ≡ true
  no_user : is_some url.username ≡ false
  no_password : is_some url.password ≡ false
  no_fragment : (url.fragment == "") ≡ true
  same_origin : is_text (origin_of url) (get "origin" target) ≡ true
  in_prefix : any (path_matches_prefix url.path) (prefixes_of (get "path_prefixes" target)) ≡ true

validate_navigation_url-passes :
    (r : Runtime) (v : Value) (target : Fields)
    → validate_navigation_url r v target ≡ ok tt
    → (raw : String) × (url : Url) × (v ≡ str raw)
      × (len raw ≤ 16384)
      × (r.urlsplit raw ≡ some url)
      × UrlPasses target url
unfolding validate_navigation_url
validate_navigation_url-passes r (str raw) target h = elim (Option-cases (r.urlsplit raw)) [
  | inl e ↦ absurd (ground arith)
  | inr (url, e) ↦ (raw, url, refl, ground arith, e, ground arith)
]
validate_navigation_url-passes r _ target h = absurd (cc)

is_some-none : {A : Type 0} (o : Option A) → is_some o ≡ false → o ≡ none
is_some-none none h = refl
is_some-none (some a) h = absurd (cc)

pub validate_navigation_url-Confined :
    (r : Runtime) (v : Value) (target : Fields)
    → validate_navigation_url r v target ≡ ok tt
    → Confined r target v
validate_navigation_url-Confined r v target h =
    let (raw, url, text, small, parsed, passes) = validate_navigation_url-passes r v target h in
    let (prefix, declared, admits) =
      any-In (path_matches_prefix url.path) (prefixes_of (get "path_prefixes" target))
        passes.in_prefix in
    record {
      raw = raw;
      url = url;
      prefix = prefix;
      is_raw = text;
      is_bounded = small;
      parsed = parsed;
      https = (eq_iff url.scheme "https").0 passes.https;
      no_user = is_some-none url.username passes.no_user;
      no_password = is_some-none url.password passes.no_password;
      no_fragment = (eq_iff url.fragment "").0 passes.no_fragment;
      same_origin = is_text-str (origin_of url) (get "origin" target) passes.same_origin;
      declared = declared;
      admitted = (path_matches_prefix_iff url.path prefix).0 admits;
    }

check_navigation-url :
    (r : Runtime) (slots results : List String) (target : Fields) (op : String) (action : Fields)
    → check_navigation r slots results target op action ≡ ok tt
    → (contains ("navigate_same_origin" ∷ "create_same_origin_tab" ∷ []) op ≡ true
        → validate_navigation_url r (get "url" action) target ≡ ok tt)
      × (contains ("navigate_history" ∷ []) op ≡ true
          → validate_navigation_url r (get "expected_url" action) target ≡ ok tt)
unfolding check_navigation
check_navigation-url r slots results target op action h = (λ e. ground arith, λ e. ground arith)

-- The field that holds the URL that an operation goes to.
abbrev pub destination_key : String → String
destination_key op = if op == "navigate_history" then "expected_url" else "url"

module _ (r : Runtime) (fs : Fields) (v : Value) (flat : List Fields) (action : Fields)
    (accepted : validate_program r (obj fs) ≡ ok v)
    (walk : iter_actions max_levels (actions_of fs) ≡ ok flat) (among : In action flat) where
  abbrev checks :
      Checked r
        (facts r fs v accepted).slots
        (facts r fs v accepted).private
        (fields_of (get "target" fs))
        (op_of action)
        action
  checks = (validate_program-Checked r fs v accepted flat action walk among).2

  -- Every action of an accepted program that goes to a URL of its own, also one inside a branch, goes to an
  -- HTTPS URL without user, password and fragment that has the target's origin and lies under one of the
  -- target's prefixes: `navigate_same_origin` and `create_same_origin_tab` by `url`, and
  -- `navigate_history` by `expected_url`.
  pub validate_program-navigation :
      In
        (op_of action)
        ("navigate_same_origin" ∷ "create_same_origin_tab" ∷ "navigate_history" ∷ [])
      → Confined r (fields_of (get "target" fs)) (get (destination_key (op_of action)) action)
  validate_program-navigation op = elim op [
    | inl e ↦ subst Goes (sym e) (by_url (inl e))
    | inr (inl e) ↦ subst Goes (sym e) (by_url (inr (inl e)))
    | inr (inr (inl e)) ↦ subst Goes (sym e) (by_history e)
    | inr (inr (inr none_left)) ↦ elim none_left [ ]
  ]
    where
      Goes : String → Type 0
      Goes name = Confined r (fields_of (get "target" fs)) (get (destination_key name) action)

      by_url :
          In (op_of action) ("navigate_same_origin" ∷ "create_same_origin_tab" ∷ [])
          → Confined r (fields_of (get "target" fs)) (get "url" action)
      by_url among_urls =
          validate_navigation_url-Confined r (get "url" action) (fields_of (get "target" fs)) (
            (check_navigation-url r _ _ _ (op_of action) action checks.navigation).0
              (In-contains _ (op_of action) among_urls))

      by_history :
          op_of action ≡ "navigate_history"
          → Confined r (fields_of (get "target" fs)) (get "expected_url" action)
      by_history e =
          validate_navigation_url-Confined r (get "expected_url" action)
            (fields_of (get "target" fs))
            ((check_navigation-url r _ _ _ (op_of action) action checks.navigation).1
              (In-contains _ (op_of action) (inl e)))
