-- ===== src/Native/Messages.antt =====
-- native_messaging.py: the workspace of `NativeRelay`: `_update_collaboration`,
-- `_collaboration_status` and `_collaboration_list`.
use llm_wiki_chrome.Prelude.{String, Option, none, some, List, [], ◌∷◌, ◌==◌, if◌then◌else◌}
use llm_wiki_chrome.Result.{Result, native_error}
use llm_wiki_chrome.Json.{Value, Items, Fields, null, str, arr, obj, nil, cons, end, field}
use llm_wiki_chrome.Runtime.{Runtime}
use llm_wiki_chrome.Protocol.Names.{browser_protocol}
use llm_wiki_chrome.Grants.Defs.{Grant, Workspace, Reasons, validate_workspace}

abbrev pub native_reasons : Reasons
native_reasons = record {
  bad_shape = native_error "active collaboration state has an invalid shape";
  bad_state = native_error "active collaboration state is invalid";
  bad_target = native_error "active collaboration target is invalid";
  bad_workspace = native_error "extension collaboration workspace is invalid";
  duplicates = native_error "extension collaboration workspace contains duplicates";
  bad_selection = native_error "extension selected collaboration is invalid";
}

abbrev pub no_workspace : Workspace
no_workspace = record { selected = none; collaborations = [] }

-- A message of the extension, `type` "collaborations".
unfoldable pub update_collaboration : Runtime → Fields → Result Workspace
update_collaboration r fs = validate_workspace r native_reasons "collaborations" fs

abbrev pub grant_value : Grant → Value
grant_value g = obj (
    field "collaboration_id" (str g.collaboration_id)
      (field "url" (str g.url) (field "origin" (str g.origin) end)))

unfoldable pub grant_items : List Grant → Items
grant_items [] = nil
grant_items (g ∷ grants) = cons (grant_value g) (grant_items grants)

abbrev pub selected_value : Option String → Value
selected_value none = null
selected_value (some s) = str s

-- `next((item for item in grants if item["collaboration_id"] == id), None)`
unfoldable pub find_grant : String → List Grant → Option Grant
find_grant id [] = none
find_grant id (g ∷ grants) = if g.collaboration_id == id then some g else find_grant id grants

abbrev pub current_grant : Workspace → Option Grant
current_grant w = elim w.selected [ none ↦ none | some id ↦ find_grant id w.collaborations ]

abbrev status_of : Option Grant → Fields
status_of none =
    field "protocol" (str browser_protocol)
      (field "type" (str "collaboration-status") (field "state" (str "inactive") end))
status_of (some g) = field "protocol" (str browser_protocol) (
    field "type" (str "collaboration-status") (
      field "state" (str "active") (
        field "collaboration_id" (str g.collaboration_id)
          (field "url" (str g.url) (field "origin" (str g.origin) end)))))

unfoldable pub collaboration_status : Workspace → Fields
collaboration_status w = status_of (current_grant w)

unfoldable pub collaboration_list : Workspace → Fields
collaboration_list w = field "protocol" (str browser_protocol) (
    field "type" (str "collaboration-list") (
      field "selected_collaboration_id" (selected_value w.selected)
        (field "collaborations" (arr (grant_items w.collaborations)) end)))
