-- ===== src/Tests/Host.antt =====
-- The native host's theorems at a codec of one message and at two grants.
use llm_wiki_chrome.Prelude.{
  ℕ, ◌+◌, ◌*◌, ◌≤◌, ◌<◌, ◌≡◌, refl, false, none, some, List, [], ◌∷◌, ◌++◌, length, same_set,
  subset, contains, unique, arith,
}
use llm_wiki_chrome.Result.{ok}
use llm_wiki_chrome.Text.{is_sha256}
use llm_wiki_chrome.Json.{Fields, str, obj, end, field, keys, get, to_list}
use llm_wiki_chrome.Grants.Defs.{
  validate_workspace, validate_list, validate_grants, validate_grant, grant_texts, check_grant,
  validate_selected,
}
use llm_wiki_chrome.Grants.Valid.{IsWorkspace, validate_workspace-IsWorkspace}
use llm_wiki_chrome.Native.Frames.{
  Codec, read_payload, pack, unpack, object_of, take, skip, read_native_message,
  write_native_message, max_message_bytes,
}
use llm_wiki_chrome.Native.Messages.{native_reasons, collaboration_list}
use llm_wiki_chrome.Native.Agent.{new_session, serve_agent}
use llm_wiki_chrome.Native.Relay.{Event, from_extension, accept, received, init, run}
use llm_wiki_chrome.Native.RoundTrip.{read-write, read_native_message-bounds}
use llm_wiki_chrome.Native.Exchange.{validate-collaboration_list}
use llm_wiki_chrome.Native.Relayed.{Relayed, serve_agent-Relayed}
use llm_wiki_chrome.Native.Invariant.{run-IsWorkspace}
use llm_wiki_chrome.Tests.Data.{runtime, one_grant, grant_message}

abbrev job : Fields
job =
    field "protocol" (str "llm-wiki-browser-executor/v1")
      (field "type" (str "job") (field "job_id" (str "0123456789abcdef0123456789abcdef0123") end))

-- The codec that knows one message.
abbrev one_message : Codec
one_message = record { dumps = λ v. 1 ∷ 2 ∷ []; loads = λ bytes. some (obj job) }

abbrev written : List ℕ
written = 2 ∷ 0 ∷ 0 ∷ 0 ∷ 1 ∷ 2 ∷ []

writes : write_native_message one_message (obj job) ≡ ok written
unfolding write_native_message pack
writes = refl

two_bytes : 0 < length (one_message.dumps (obj job))
two_bytes = omega arith

read-write_example : read_native_message one_message (written ++ 7 ∷ []) ≡ ok (some job, 7 ∷ [])
read-write_example = read-write one_message job written (7 ∷ []) refl two_bytes writes

reads : read_native_message one_message (2 ∷ 0 ∷ 0 ∷ 0 ∷ 1 ∷ 2 ∷ 7 ∷ []) ≡ ok (some job, 7 ∷ [])
unfolding read_native_message read_payload unpack object_of take skip
reads = refl

read_native_message-bounds_example :
    (payload : List ℕ) × (1 ∷ 2 ∷ 7 ∷ [] ≡ payload ++ 7 ∷ [])
    × (length payload ≡ 2 + 256 * 0 + 65536 * 0 + 16777216 * 0)
    × (0 < length payload)
    × (length payload ≤ max_message_bytes)
    × (one_message.loads payload ≡ some (obj job))
read_native_message-bounds_example =
    read_native_message-bounds one_message 2 0 0 0 (1 ∷ 2 ∷ 7 ∷ []) (7 ∷ []) job reads

serve_agent-Relayed_example :
    Relayed none false
      (serve_agent one_message (some new_session) ((one_grant, 1 ∷ 10 ∷ []) ∷ [])).outputs
serve_agent-Relayed_example = serve_agent-Relayed one_message ((one_grant, 1 ∷ 10 ∷ []) ∷ [])

one_grant_accepted :
    validate_workspace runtime native_reasons "collaborations" grant_message ≡ ok one_grant
unfolding validate_workspace validate_list validate_grants validate_grant grant_texts check_grant
    validate_selected same_set subset contains keys get to_list unique is_sha256
one_grant_accepted = refl

validate_workspace-IsWorkspace_example : IsWorkspace runtime one_grant
validate_workspace-IsWorkspace_example =
    validate_workspace-IsWorkspace runtime native_reasons "collaborations" grant_message one_grant
      one_grant_accepted

one_grant_valid : IsWorkspace runtime one_grant
one_grant_valid =
    validate_workspace-IsWorkspace runtime native_reasons "collaborations" grant_message one_grant
      one_grant_accepted

validate-collaboration_list_example :
    validate_workspace runtime native_reasons "collaboration-list" (collaboration_list one_grant)
    ≡ ok one_grant
validate-collaboration_list_example =
    validate-collaboration_list runtime native_reasons one_grant one_grant_valid

abbrev some_events : List Event
some_events = from_extension grant_message ∷ accept 3 ∷ received 3 (1 ∷ 10 ∷ []) ∷ []

run-IsWorkspace_example : IsWorkspace runtime (run one_message runtime init some_events).workspace
run-IsWorkspace_example = run-IsWorkspace one_message runtime some_events
