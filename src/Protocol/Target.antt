-- ===== src/Protocol/Target.antt =====
-- protocol.py: `_validate_target`, `_validate_navigation_url` and `_validate_limits`.
use Prim.Native.String as String
use llm_wiki_chrome.Prelude.{
  ℕ, String, len, Bool, true, not, ◌||◌, ◌&&◌, Option, none, some, List, [], ◌∷◌, ◌==◌, leb, ltb,
  is_some, is_empty, length, all, any, unique,
}
use llm_wiki_chrome.Result.{Result, ok, err, protocol_error, value_error, raise_if, ◌>>=◌, ◌>>◌}
use llm_wiki_chrome.Text.{starts_with, has_char, is_sha256}
use llm_wiki_chrome.Json.{
  pos, Value, Fields, str, int, arr, obj, to_list, get, str_and, is_text, texts, int_within,
}
use llm_wiki_chrome.Runtime.{Runtime, Url}
use llm_wiki_chrome.Protocol.Checks.{reject_unknown_keys, path_matches_prefix}

abbrev pub or_value_error : Option Url → Result Url
or_value_error none = err value_error
or_value_error (some url) = ok url

-- `not url.hostname`
abbrev pub lacks_host : Option String → Bool
lacks_host none = true
lacks_host (some host) = host == ""

-- f"{url.scheme}://{url.netloc}"
abbrev pub origin_of : Url → String
origin_of url = String.◌++◌ url.scheme (String.◌++◌ "://" url.netloc)

abbrev pub is_prefix_text : String → Bool
is_prefix_text s =
    starts_with s "/" && not (has_char b'?' s) && not (has_char b'#' s) && leb (len s) 2048

-- The prefixes of a target whose `path_prefixes` is a list.
unfoldable pub prefixes_of : Value → List String
prefixes_of (arr vs) = texts (to_list vs)
prefixes_of _ = []

module _ (r : Runtime) where
  unfoldable pub check_prefixes : Url → Value → Result (Unit {0})
  check_prefixes url (arr vs) = do
    let items = to_list vs
    raise_if (is_empty items) (protocol_error "target requires at least one path prefix")
    raise_if (ltb 8 (length items))
        (protocol_error "target path prefixes must be unique and bounded")
    raise_if (not (all (str_and is_prefix_text) items))
        (protocol_error "target path prefixes must be absolute paths")
    raise_if (not (unique (texts items)))
        (protocol_error "target path prefixes must be unique and bounded")
    raise_if (not (any (path_matches_prefix url.path) (texts items)))
        (protocol_error "target URL is outside its approved path prefixes")
  check_prefixes url _ = err (protocol_error "target requires at least one path prefix")

  unfoldable pub check_target_url : (raw_url raw_origin : String) → Result Url
  check_target_url raw_url raw_origin = do
    url ← or_value_error (r.urlsplit raw_url)
    origin ← or_value_error (r.urlsplit raw_origin)
    raise_if
        (not (url.scheme == "https")
          || not (origin.scheme == "https")
          || lacks_host url.hostname
          || is_some url.username
          || is_some url.password)
        (protocol_error "target must use an exact HTTPS URL and origin")
    raise_if
        (not (raw_origin == origin_of url)
          || not (origin.path == "")
          || not (origin.query == "")
          || not (origin.fragment == ""))
        (protocol_error "target origin does not exactly match the target URL")
    ok url

  unfoldable pub target_url : Value → Value → Result Url
  target_url (str raw_url) (str raw_origin) = check_target_url raw_url raw_origin
  target_url _ _ = err (protocol_error "target url and origin must be strings")

  unfoldable pub validate_target : Value → Result (Unit {0})
  validate_target (obj target) = do
    reject_unknown_keys target ("url" ∷ "origin" ∷ "path_prefixes" ∷ "collaboration_id" ∷ [])
    url ← target_url (get "url" target) (get "origin" target)
    raise_if (not (str_and is_sha256 (get "collaboration_id" target)))
        (protocol_error "target requires an exact active collaboration id")
    check_prefixes url (get "path_prefixes" target)
  validate_target _ = err (protocol_error "target must be an object")

  -- `target["origin"]` and `target["path_prefixes"]` have passed `validate_target`.
  unfoldable pub validate_navigation_url : Value → Fields → Result (Unit {0})
  validate_navigation_url (str raw_url) target = do
    raise_if (ltb 16384 (len raw_url)) (protocol_error "navigation URL must be a bounded string")
    url ← or_value_error (r.urlsplit raw_url)
    raise_if
        (not (url.scheme == "https")
          || is_some url.username
          || is_some url.password
          || not (url.fragment == "")
          || not (is_text (origin_of url) (get "origin" target))
          || not (any (path_matches_prefix url.path) (prefixes_of (get "path_prefixes" target))))
        (protocol_error "navigation URL is outside the exact target policy")
  validate_navigation_url _ target = err (protocol_error "navigation URL must be a bounded string")

pub record Limits : Type 0 where
  pub timeout_ms : ℕ
  pub max_actions : ℕ
  pub max_repeat : ℕ

-- The number of a value that `int_within` accepts.
unfoldable pub number_of : Value → ℕ
number_of (int (pos n)) = n
number_of _ = 0

unfoldable pub validate_limits : Value → Result Limits
validate_limits (obj limits) = do
  reject_unknown_keys limits ("timeout_ms" ∷ "max_actions" ∷ "max_repeat" ∷ [])
  raise_if (not (int_within 1000 300000 (get "timeout_ms" limits)))
      (protocol_error "timeout_ms must be between 1000 and 300000")
  raise_if (not (int_within 1 200 (get "max_actions" limits)))
      (protocol_error "max_actions must be between 1 and 200")
  raise_if (not (int_within 1 20 (get "max_repeat" limits)))
      (protocol_error "max_repeat must be between 1 and 20")
  ok (record {
    timeout_ms = number_of (get "timeout_ms" limits);
    max_actions = number_of (get "max_actions" limits);
    max_repeat = number_of (get "max_repeat" limits);
  })
validate_limits _ = err (protocol_error "limits must be an object")
