-- ===== src/Tests/Data.antt =====
-- A runtime, two programs and a workspace that the tests share.
use llm_wiki_chrome.Prelude.{String, true, Option, none, some, List, [], ◌∷◌, ◌==◌, if◌then◌else◌}
use llm_wiki_chrome.Json.{
  Value, Items, Fields, str, int, pos, arr, obj, nil, cons, end, field, bool,
}
use llm_wiki_chrome.Runtime.{Url, Runtime}
use llm_wiki_chrome.Client.Outcome.{Outcome}
use llm_wiki_chrome.Grants.Defs.{Grant, Workspace}

abbrev pub digest : String
digest = "0123456789abcdef0123456789abcdef0123456789abcdef0123456789abcdef"

abbrev pub page : Url
page = record {
  scheme = "https";
  netloc = "wiki.example";
  path = "/team/notes";
  query = "";
  fragment = "";
  hostname = some "wiki.example";
  username = none;
  password = none;
}

abbrev pub origin : Url
origin = record {
  scheme = "https";
  netloc = "wiki.example";
  path = "";
  query = "";
  fragment = "";
  hostname = some "wiki.example";
  username = none;
  password = none;
}

-- Two URLs parse.
abbrev pub split : String → Option Url
split raw =
    if raw == "https://wiki.example/team/notes"
    then some page
    else if raw == "https://wiki.example"
    then some origin
    else none

abbrev pub runtime : Runtime
runtime = record {
  dumps = λ v. "{}";
  sha256 = λ s. digest;
  urlsplit = split;
  lower = λ s. s;
  repr = λ v. "";
  compiles = λ s. true;
}

abbrev pub texts_of : List String → Items
texts_of [] = nil
texts_of (s ∷ ss) = cons (str s) (texts_of ss)

abbrev pub button : Value
button = obj (field "role" (str "button") (field "name" (str "Save") end))

abbrev pub navigate : Fields
navigate =
    field "op" (str "navigate_same_origin")
      (field "url" (str "https://wiki.example/team/notes") end)

abbrev pub back : Fields
back = field "op" (str "navigate_history") (
    field "direction" (str "back")
      (field "expected_url" (str "https://wiki.example/team/notes") end))

abbrev pub insert : Fields
insert =
    field "op" (str "insert_private_text")
      (field "slot" (str "body") (field "replace_all" (bool true) end))

abbrev pub scroll : Fields
scroll = field "op" (str "collect_ax_by_scrolling") (
    field "locator" button (
      field "fields" (arr (texts_of ("name" ∷ []))) (
        field "private_result" (str "rows") (
          field "max_items" (int (pos 10)) (
            field "direction" (str "down") (
              field "distance_px" (int (pos 400)) (
                field "max_scrolls" (int (pos 3)) (
                  field "settle_ms" (int (pos 100)) (
                    field "dedupe_fields" (arr (texts_of ("name" ∷ []))) (
                      field "stable_rounds" (int (pos 1))
                        (field "scroll_anchor" button end)))))))))))

abbrev pub only : String → Fields
only name = field "op" (str name) end

abbrev pub click : Fields
click = field "op" (str "click_ax") (field "locator" button end)

abbrev pub click_branch : Items
click_branch = cons (obj click) nil

abbrev pub choice : Fields
choice = field "op" (str "first_success") (field "branches" (arr (cons (arr click_branch) nil)) end)

abbrev objects : List Fields → Items
objects [] = nil
objects (fs ∷ fss) = cons (obj fs) (objects fss)

abbrev pub read_actions : Items
read_actions = objects (
    only "open_or_focus_exact_url"
    ∷ only "attach_debugger"
    ∷ navigate
    ∷ choice
    ∷ scroll
    ∷ only "detach_debugger"
    ∷ [])

abbrev pub read_flat : List Fields
read_flat =
    only "open_or_focus_exact_url"
    ∷ only "attach_debugger"
    ∷ navigate
    ∷ choice
    ∷ click
    ∷ scroll
    ∷ only "detach_debugger"
    ∷ []

abbrev pub write_actions : Items
write_actions = objects (
    only "open_or_focus_exact_url"
    ∷ only "attach_debugger"
    ∷ choice
    ∷ only "before_mutation"
    ∷ back
    ∷ insert
    ∷ only "detach_debugger"
    ∷ [])

abbrev pub write_flat : List Fields
write_flat =
    only "open_or_focus_exact_url"
    ∷ only "attach_debugger"
    ∷ choice
    ∷ click
    ∷ only "before_mutation"
    ∷ back
    ∷ insert
    ∷ only "detach_debugger"
    ∷ []

abbrev pub program : String → Items → (slots private : List String) → Fields
program capability actions slots private = field "protocol" (str "llm-wiki-browser-executor/v1") (
    field "program_id" (str "prog.1") (
      field "program_sha256" (str digest) (
        field "plan_sha256" (str digest) (
          field "driver" (obj (field "id" (str "wiki") (field "version" (str "1.0") end))) (
            field "capability" (str capability) (
              field "target"
                (obj (
                  field "url" (str "https://wiki.example/team/notes") (
                    field "origin" (str "https://wiki.example") (
                      field "path_prefixes" (arr (texts_of ("/team" ∷ [])))
                        (field "collaboration_id" (str digest) end)))))
                (field "limits"
                  (obj (
                    field "timeout_ms" (int (pos 5000))
                      (field "max_actions" (int (pos 20)) (field "max_repeat" (int (pos 5)) end))))
                  (field "private_slots" (arr (texts_of slots)) (
                    field "actions" (arr actions) (
                      field "result"
                        (obj (
                          field "public_fields" (arr (texts_of ("status" ∷ [])))
                            (field "private_fields" (arr (texts_of private)) end)))
                        end))))))))))

abbrev pub read_program : Fields
read_program = program "read" read_actions [] ("rows" ∷ [])

abbrev pub write_program : Fields
write_program = program "mutation" write_actions ("body" ∷ []) []

abbrev pub small_grant : Grant
small_grant = record {
  collaboration_id = digest;
  url = "https://wiki.example/team/notes";
  origin = "https://wiki.example";
}

abbrev pub one_grant : Workspace
one_grant = record { selected = some digest; collaborations = small_grant ∷ [] }

abbrev pub workspace_message : String → Fields
workspace_message message_type = field "protocol" (str "llm-wiki-browser-executor/v1") (
    field "type" (str message_type) (
      field "selected_collaboration_id" (str digest) (
        field "collaborations"
          (arr (
            cons
              (obj (
                field "collaboration_id" (str digest) (
                  field "url" (str "https://wiki.example/team/notes")
                    (field "origin" (str "https://wiki.example") end))))
              nil))
          end)))

abbrev pub grant_message : Fields
grant_message = workspace_message "collaborations"

abbrev pub list_message : Fields
list_message = workspace_message "collaboration-list"

abbrev pub write_outcome : Outcome
write_outcome = record {
  status = "ok";
  public = field "status" (str "ok") end;
  private = end;
  error = none;
}
