-- ===== src/Grants/Defs.antt =====
-- native_messaging.py: `_validate_collaboration`, `_validate_collaboration_update`; client.py:
-- `_validate_collaboration`, `_validate_collaboration_workspace`.
use llm_wiki_chrome.Prelude.{
  String, len, not, ◌||◌, ◌==◌, Option, none, some, List, [], ◌∷◌, ltb, length, unique, contains,
  same_set, is_some, map,
}
use llm_wiki_chrome.Result.{Error, Result, ok, err, raise_if, ◌>>=◌, ◌>>◌}
use llm_wiki_chrome.Text.{is_sha256}
use llm_wiki_chrome.Json.{Value, Fields, null, str, arr, obj, to_list, get, keys, is_text}
use llm_wiki_chrome.Runtime.{Runtime}
use llm_wiki_chrome.Protocol.Target.{or_value_error, origin_of, lacks_host}

-- One clicked tab: the validated dictionary.
pub record Grant : Type 0 where
  pub collaboration_id : String
  pub url : String
  pub origin : String

pub record Workspace : Type 0 where
  pub selected : Option String
  pub collaborations : List Grant

-- The exceptions of one of the two modules.
pub record Reasons : Type 0 where
  pub bad_shape : Error
  pub bad_state : Error
  pub bad_target : Error
  pub bad_workspace : Error
  pub duplicates : Error
  pub bad_selection : Error

abbrev pub grant_keys : List String
grant_keys = "collaboration_id" ∷ "url" ∷ "origin" ∷ []

abbrev pub workspace_keys : List String
workspace_keys = "protocol" ∷ "type" ∷ "selected_collaboration_id" ∷ "collaborations" ∷ []

module _ (r : Runtime) (reasons : Reasons) where
  unfoldable pub check_grant : (id raw_url raw_origin : String) → Result Grant
  check_grant id raw_url raw_origin = do
    raise_if (not (is_sha256 id) || ltb 16384 (len raw_url)) reasons.bad_state
    url ← or_value_error (r.urlsplit raw_url)
    raise_if
        (not (url.scheme == "https")
          || lacks_host url.hostname
          || is_some url.username
          || is_some url.password
          || not (raw_origin == origin_of url))
        reasons.bad_target
    ok (record { collaboration_id = id; url = raw_url; origin = raw_origin })

  unfoldable pub grant_texts : Value → Value → Value → Result Grant
  grant_texts (str id) (str raw_url) (str raw_origin) = check_grant id raw_url raw_origin
  grant_texts _ _ _ = err reasons.bad_state

  unfoldable pub validate_grant : Value → Result Grant
  validate_grant (obj fs) = do
    raise_if (not (same_set (keys fs) grant_keys)) reasons.bad_shape
    grant_texts (get "collaboration_id" fs) (get "url" fs) (get "origin" fs)
  validate_grant _ = err reasons.bad_shape

  unfoldable pub validate_grants : List Value → Result (List Grant)
  validate_grants [] = ok []
  validate_grants (v ∷ vs) = do
    grant ← validate_grant v
    rest ← validate_grants vs
    ok (grant ∷ rest)

  unfoldable pub validate_selected : Value → List String → Result (Option String)
  validate_selected null ids = ok none
  validate_selected (str s) ids = do
    raise_if (not (is_sha256 s) || not (contains ids s)) reasons.bad_selection
    ok (some s)
  validate_selected _ ids = err reasons.bad_selection

  unfoldable pub validate_list : Value → Value → Result Workspace
  validate_list selected (arr vs) = do
    raise_if (ltb 16 (length (to_list vs))) reasons.bad_workspace
    grants ← validate_grants (to_list vs)
    raise_if
        (not (unique (map (λ g. g.collaboration_id) grants))
          || not (unique (map (λ g. g.url) grants)))
        reasons.duplicates
    chosen ← validate_selected selected (map (λ g. g.collaboration_id) grants)
    ok (record { selected = chosen; collaborations = grants })
  validate_list selected _ = err reasons.bad_workspace

  -- `message_type` is the type that the module expects.
  unfoldable pub validate_workspace : (message_type : String) → Fields → Result Workspace
  validate_workspace message_type fs = do
    raise_if (not (same_set (keys fs) workspace_keys) || not (is_text message_type (get "type" fs)))
        reasons.bad_workspace
    validate_list (get "selected_collaboration_id" fs) (get "collaborations" fs)
