-- ===== src/Tests/Access.antt =====
-- The client's theorems, applied.
use llm_wiki_chrome.Prelude.{
  String, ◌≡◌, refl, ◌↔◌, true, false, none, some, List, [], ◌∷◌, In, All, same_set, subset,
  contains, unique, all, any, select, sort_by, insert_by,
}
use llm_wiki_chrome.Result.{ok}
use llm_wiki_chrome.Text.{is_sha256}
use llm_wiki_chrome.Json.{
  Value, Fields, items_of, null, str, arr, obj, nil, end, field, keys, values, get, has, texts,
  member, to_list,
}
use llm_wiki_chrome.Protocol.Guards.{text_of}
use llm_wiki_chrome.Protocol.Order.{fields_of}
use llm_wiki_chrome.Protocol.Program.{get_or, validate_program}
use llm_wiki_chrome.Grants.Defs.{
  Workspace, validate_workspace, validate_list, validate_grants, validate_grant, grant_texts,
  check_grant, validate_selected,
}
use llm_wiki_chrome.Client.Outcome.{
  Outcome, check_public, check_fields, validate_result, check_private_values,
  validate_private_values,
}
use llm_wiki_chrome.Client.Job.{Arrival, message, callback, send_authorized, at_boundary, run_loop}
use llm_wiki_chrome.Client.Call.{permits, prepare, run_prepared, run}
use llm_wiki_chrome.Client.Connectors.{
  Connector, keep, query_all, all_ids, collaboration_workspaces, ranks_before, rank_grants,
  rank_all, sorted_grants, collaborations, at_most_one, collaboration_for_url, is_target,
  matching_paths, the_only, connector_for_program,
}
use llm_wiki_chrome.Client.Successful.{run-mutation}
use llm_wiki_chrome.Client.Chosen.{
  Listed, collaboration_for_url-Listed, HasTarget, connector_for_program-HasTarget,
}
use llm_wiki_chrome.Client.Values.{SmallText, validate_private_values-Exact}
use llm_wiki_chrome.Tests.Data.{
  write_outcome, runtime, read_program, write_program, small_grant, list_message,
}
use llm_wiki_chrome.Tests.Validator.{write_accepted}

abbrev outcome_message : String → Fields
outcome_message private_name = field "protocol" (str "llm-wiki-browser-executor/v1") (
    field "type" (str "result") (
      field "job_id" (str "job") (
        field "status" (str "ok") (
          field "public" (obj (field "status" (str "ok") end))
            (field "private" (obj (field private_name (str "text") end)) end)))))

abbrev plain_message : Fields
plain_message = field "protocol" (str "llm-wiki-browser-executor/v1") (
    field "type" (str "result") (
      field "job_id" (str "job") (
        field "status" (str "ok")
          (field "public" (obj (field "status" (str "ok") end)) (field "private" (obj end) end)))))

abbrev boundary_message : Fields
boundary_message =
    field "protocol" (str "llm-wiki-browser-executor/v1")
      (field "type" (str "before-mutation") (field "job_id" (str "job") end))

abbrev read_outcome : Outcome
read_outcome = record {
  status = "ok";
  public = field "status" (str "ok") end;
  private = field "rows" (str "text") end;
  error = none;
}

read_result : validate_result (outcome_message "rows") "job" read_program false ≡ ok read_outcome
unfolding validate_result check_fields check_public same_set subset contains keys get has texts
    member to_list text_of
read_result = refl

write_result : validate_result plain_message "job" write_program true ≡ ok write_outcome
unfolding validate_result check_fields check_public same_set subset contains keys get has texts
    member to_list text_of
write_result = refl

abbrev arrivals : List Arrival
arrivals = message boundary_message ∷ message plain_message ∷ []

abbrev one_connector : List Connector
one_connector = ("/run/native.sock", ok list_message) ∷ []

abbrev given_values : Value
given_values = obj (field "body" (str "text") end)

ready :
    prepare runtime (obj write_program) given_values (some permits) one_connector (λ path. ok tt)
    ≡ ok write_program
unfolding prepare validate_private_values check_private_values connector_for_program same_set subset
    contains keys values get has texts to_list all
ready = rw write_accepted refl

run_succeeds :
    (run runtime
      (obj write_program)
      given_values
      (some permits)
      one_connector
      (λ path. ok tt)
      "job"
      arrivals).result
    ≡ ok write_outcome
unfolding run run_prepared run_loop at_boundary validate_result check_fields check_public same_set
    subset contains keys get has texts member to_list text_of
run_succeeds = rw ready refl

write_capability_text : get "capability" (fields_of (obj write_program)) ≡ str "mutation"
unfolding get
write_capability_text = refl

run-mutation_example :
    (validate_program runtime (obj write_program) ≡ ok (obj write_program))
    × ((run runtime
          (obj write_program)
          given_values
          (some permits)
          one_connector
          (λ path. ok tt)
          "job"
          arrivals).effects
        ≡ callback ∷ send_authorized true ∷ [])
    × (some permits ≡ some permits)
run-mutation_example =
    run-mutation runtime (obj write_program) given_values (some permits) one_connector
      (λ path. ok tt) "job" arrivals write_outcome run_succeeds refl write_capability_text

found : collaboration_for_url runtime one_connector (str small_grant.url) ≡ ok (some small_grant)
unfolding collaboration_for_url collaborations collaboration_workspaces query_all keep all_ids
    sorted_grants rank_all rank_grants sort_by insert_by ranks_before at_most_one select
    validate_workspace validate_list validate_grants validate_grant grant_texts check_grant
    validate_selected same_set subset contains keys get to_list unique is_sha256
found = refl

collaboration_for_url-Listed_example :
    (small_grant.url ≡ "https://wiki.example/team/notes")
    × (workspaces : List (String × Workspace)) × (collaboration_workspaces runtime one_connector
        ≡ ok workspaces)
    × Listed small_grant workspaces
collaboration_for_url-Listed_example =
    collaboration_for_url-Listed runtime one_connector "https://wiki.example/team/notes" small_grant
      found

abbrev other_message : Fields
other_message = field "protocol" (str "llm-wiki-browser-executor/v1") (
    field "type" (str "collaboration-list")
      (field "selected_collaboration_id" null (field "collaborations" (arr nil) end)))

abbrev idle : Connector
idle = ("/run/native.sock.01234567", ok other_message)

chosen : connector_for_program runtime (idle ∷ one_connector) write_program ≡ ok "/run/native.sock"
unfolding connector_for_program matching_paths the_only is_target collaboration_workspaces query_all
    keep all_ids validate_workspace validate_list validate_grants validate_grant grant_texts
    check_grant validate_selected same_set subset contains keys get to_list unique is_sha256 any all
chosen = refl

connector_for_program-HasTarget_example :
    (workspaces : List (String × Workspace)) × (w : Workspace) × (collaboration_workspaces runtime
        (idle ∷ one_connector)
      ≡ ok workspaces)
    × In ("/run/native.sock", w) workspaces
    × HasTarget (fields_of (get "target" write_program)) w
connector_for_program-HasTarget_example =
    connector_for_program-HasTarget runtime idle ("/run/native.sock", ok list_message) []
      write_program "/run/native.sock" chosen

given_accepted :
    validate_private_values runtime write_program given_values ≡ ok (field "body" (str "text") end)
unfolding validate_private_values check_private_values same_set subset contains keys values get has
    texts to_list all
given_accepted = refl

validate_private_values-Exact_example :
    (In "body" (keys (field "body" (str "text") end))
      ↔ In "body" (texts (items_of (get_or "private_slots" (arr nil) write_program))))
    × All SmallText (values (field "body" (str "text") end))
validate_private_values-Exact_example =
    validate_private_values-Exact runtime write_program (field "body" (str "text") end) given_values
      "body" given_accepted
