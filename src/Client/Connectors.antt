-- ===== src/Client/Connectors.antt =====
-- client.py: the connectors and the grants that they list: `_collaboration_workspaces`,
-- `collaborations`, `collaboration_for_url`, `current_collaboration` and `_connector_for_program`. A
-- connector is its socket's path with the answer to the list query, or the exception of the query.
use Prim.Native.Nat.{Ordering}
use Prim.Native.String.{compare}
use llm_wiki_chrome.Prelude.{
  String, len, Bool, true, false, not, ◌&&◌, ◌||◌, ◌==◌, Option, none, some, List, [], ◌∷◌, ◌++◌,
  ltb, any, sort_by, select, map, unique, is_empty, is_some, if◌then◌else◌,
}
use llm_wiki_chrome.Result.{Result, ok, err, client_error, raise_if, ◌>>=◌, ◌>>◌}
use llm_wiki_chrome.Json.{Value, Fields, str, get, is_text}
use llm_wiki_chrome.Runtime.{Runtime}
use llm_wiki_chrome.Protocol.Target.{or_value_error, lacks_host}
use llm_wiki_chrome.Protocol.Order.{fields_of}
use llm_wiki_chrome.Grants.Defs.{Grant, Workspace, Reasons, validate_workspace}
use llm_wiki_chrome.Native.Messages.{current_grant}

abbrev pub client_reasons : Reasons
client_reasons = record {
  bad_shape = client_error "browser executor returned invalid collaboration state";
  bad_state = client_error "browser executor returned invalid collaboration state";
  bad_target = client_error "browser executor returned invalid collaboration state";
  bad_workspace = client_error "browser executor returned invalid collaboration workspace";
  duplicates = client_error "browser executor returned duplicate collaboration targets";
  bad_selection = client_error "browser executor returned invalid selected collaboration";
}

abbrev pub Connector : Type 0
Connector = String × Result Fields

-- `except ClientError: continue`; another exception ends the loop.
unfoldable pub keep :
    String
    → Result Workspace
    → Result (List (String × Workspace))
    → Result (List (String × Workspace))
keep path (ok w) rest = do others ← rest; ok ((path, w) ∷ others)
keep path (err (client_error reason)) rest = rest
keep path (err e) rest = err e

unfoldable pub query_all : Runtime → List Connector → Result (List (String × Workspace))
query_all r [] = ok []
query_all r ((path, reply) ∷ connectors) =
    keep path (reply >>= λ fs. validate_workspace r client_reasons "collaboration-list" fs)
      (query_all r connectors)

unfoldable pub all_ids : List (String × Workspace) → List String
all_ids [] = []
all_ids ((path, w) ∷ rest) = map (λ g. g.collaboration_id) w.collaborations ++ all_ids rest

unfoldable pub collaboration_workspaces :
    Runtime → List Connector → Result (List (String × Workspace))
collaboration_workspaces r connectors = do
  workspaces ← query_all r connectors
  raise_if (is_empty workspaces) (client_error "browser executor connector is unavailable")
  raise_if (not (unique (all_ids workspaces)))
      (client_error "browser executor returned duplicate collaboration targets")
  ok workspaces

-- The sort key of a grant: not selected, the connector's path, the id.
pub record Ranked : Type 0 where
  pub not_selected : Bool
  pub path : String
  pub grant : Grant

abbrev then_by : Ordering → Bool → Bool
then_by Ordering.lt later = true
then_by Ordering.eq later = later
then_by Ordering.gt later = false

-- The key of `a` is not above that of `b`.
unfoldable pub ranks_before : Ranked → Ranked → Bool
ranks_before a b =
    if not a.not_selected && b.not_selected
    then true
    else if a.not_selected && not b.not_selected
    then false
    else then_by (compare a.path b.path)
        (then_by (compare a.grant.collaboration_id b.grant.collaboration_id) true)

abbrev pub is_selected : Option String → Grant → Bool
is_selected none g = false
is_selected (some s) g = g.collaboration_id == s

unfoldable pub rank_grants : String → Option String → List Grant → List Ranked
rank_grants path selected [] = []
rank_grants path selected (g ∷ grants) =
    record { not_selected = not (is_selected selected g); path = path; grant = g }
    ∷ rank_grants path selected grants

unfoldable pub rank_all : List (String × Workspace) → List Ranked
rank_all [] = []
rank_all ((path, w) ∷ rest) = rank_grants path w.selected w.collaborations ++ rank_all rest

unfoldable pub sorted_grants : List (String × Workspace) → List Grant
sorted_grants workspaces = map (λ a. a.grant) (sort_by ranks_before (rank_all workspaces))

unfoldable pub collaborations : Runtime → List Connector → Result (List Grant)
collaborations r connectors = do
  workspaces ← collaboration_workspaces r connectors
  ok (sorted_grants workspaces)

-- `None`, the one match, or an exception where there are several
unfoldable pub at_most_one : List Grant → Result (Option Grant)
at_most_one [] = ok none
at_most_one (g ∷ []) = ok (some g)
at_most_one (g ∷ h ∷ grants) =
    err (client_error "browser executor returned an ambiguous collaboration target")

unfoldable pub collaboration_for_url : Runtime → List Connector → Value → Result (Option Grant)
collaboration_for_url r connectors (str raw_url) = do
  raise_if (ltb 16384 (len raw_url)) (client_error "collaboration URL is invalid")
  url ← or_value_error (r.urlsplit raw_url)
  raise_if
      (not (url.scheme == "https")
        || lacks_host url.hostname
        || is_some url.username
        || is_some url.password)
      (client_error "collaboration URL is invalid")
  grants ← collaborations r connectors
  at_most_one (select (λ g. g.url == raw_url) grants)
collaboration_for_url r connectors _ = err (client_error "collaboration URL is invalid")

unfoldable pub first_current : List (String × Workspace) → Option Grant
first_current [] = none
first_current ((path, w) ∷ rest) =
    let others = first_current rest in elim (current_grant w) [ none ↦ others | some g ↦ some g ]

unfoldable pub current_collaboration : Runtime → List Connector → Result (Option Grant)
current_collaboration r connectors = do
  workspaces ← collaboration_workspaces r connectors
  ok (first_current workspaces)

-- The grant is the program's target.
unfoldable pub is_target : Fields → Grant → Bool
is_target target g =
    is_text g.collaboration_id (get "collaboration_id" target)
    && is_text g.url (get "url" target)
    && is_text g.origin (get "origin" target)

unfoldable pub matching_paths : Fields → List (String × Workspace) → List String
matching_paths target [] = []
matching_paths target ((path, w) ∷ rest) =
    let others = matching_paths target rest in
    elim (any (is_target target) w.collaborations) [ true ↦ path ∷ others | false ↦ others ]

unfoldable pub the_only : List String → Result String
the_only (path ∷ []) = ok path
the_only _ = err (client_error "the exact clicked-tab grant is unavailable or ambiguous")

-- A single connector is taken as it is; `connectors` has passed `_connector_candidates`.
unfoldable pub connector_for_program : Runtime → List Connector → Fields → Result String
connector_for_program r [] program =
    err (client_error "browser executor connector is offline or not private")
connector_for_program r ((path, reply) ∷ []) program = ok path
connector_for_program r (first ∷ second ∷ connectors) program = do
  workspaces ← collaboration_workspaces r (first ∷ second ∷ connectors)
  the_only (matching_paths (fields_of (get "target" program)) workspaces)
