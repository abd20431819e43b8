-- ===== src/Tests/Local.antt =====
-- The theorems of the file policy, of the driver and of the sockets, applied.
use llm_wiki_chrome.Prelude.{
  ◌≤◌, ◌≡◌, refl, ◌↔◌, false, none, some, [], ◌∷◌, All, length, ◌==◌, if◌then◌else◌, any,
}
use llm_wiki_chrome.Result.{Result, ok}
use llm_wiki_chrome.Text.{is_sha256, prefix_of}
use llm_wiki_chrome.Json.{Value, Items, str, arr, obj, nil, cons, end, field, get, to_list}
use llm_wiki_chrome.Client.Outcome.{Outcome}
use llm_wiki_chrome.Client.Call.{permits}
use llm_wiki_chrome.Client.Connectors.{is_target}
use llm_wiki_chrome.Policy.Roots.{
  FilePath, FileSystem, LocalBrowserPolicy, same_path, parents, inside, upload_path, each_upload,
  validate_uploads, validate_download,
}
use llm_wiki_chrome.Policy.Inside.{
  Registered, validate_uploads-Registered, validate_download-Registered,
}
use llm_wiki_chrome.Driver.Session.{
  VerifiedProviderResult, check_plan, check_bound, run_verified, execute,
}
use llm_wiki_chrome.Driver.Verified.{Bound, execute-Bound}
use llm_wiki_chrome.Storage.Sockets.{Metadata, type_directory, type_socket, validate_private_socket}
use llm_wiki_chrome.Storage.Private.{Private, validate_private_socket_iff}
use llm_wiki_chrome.Tests.Data.{write_outcome, digest, runtime, write_program, small_grant}
use llm_wiki_chrome.Tests.Validator.{write_accepted}

abbrev upload : FilePath
upload = "home" ∷ "shared" ∷ "a.txt" ∷ []

-- One file, whose name resolves.
abbrev pub disk : FileSystem
disk = record {
  resolve = λ s. if s == "/home/shared/a.txt" then some upload else none;
  expand_and_resolve = λ s. none;
  is_dir = λ path. false;
  is_file = λ path. same_path path upload;
  is_symlink = λ s. false;
}

abbrev pub policy : LocalBrowserPolicy
policy = record {
  upload_roots = ("home" ∷ "shared" ∷ []) ∷ [];
  download_roots = ("home" ∷ []) ∷ [];
}

abbrev upload_request : Items
upload_request = cons (str "/home/shared/a.txt") nil

uploads_pass : validate_uploads disk policy (arr upload_request) ≡ ok (upload ∷ [])
unfolding validate_uploads each_upload upload_path inside parents same_path any to_list prefix_of
uploads_pass = refl

validate_uploads-Registered_example :
    All (Registered disk policy.upload_roots) (upload ∷ [])
    × (length (upload ∷ []) ≡ length (to_list upload_request))
    × (length (upload ∷ []) ≤ 16)
validate_uploads-Registered_example =
    validate_uploads-Registered disk policy upload_request (upload ∷ []) uploads_pass

download_passes : validate_download disk policy (str "/home/shared/a.txt") ≡ ok upload
unfolding validate_download inside parents same_path any prefix_of
download_passes = refl

validate_download-Registered_example : Registered disk policy.download_roots upload
validate_download-Registered_example =
    validate_download-Registered disk policy (str "/home/shared/a.txt") upload download_passes

abbrev verdict : Value
verdict = obj (field "status" (str "verified") end)

abbrev performs : Value → Result Outcome
performs v = ok write_outcome

abbrev verifies : Outcome → Result Value
verifies o = ok verdict

abbrev provider_result : VerifiedProviderResult
provider_result = record { execution = write_outcome; verification = verdict }

executes :
    execute runtime small_grant (obj write_program) digest (some permits) performs verifies
    ≡ ok provider_result
unfolding execute check_plan check_bound run_verified is_target get is_sha256
executes = rw write_accepted refl

execute-Bound_example :
    Bound runtime small_grant (obj write_program) digest performs verifies provider_result
execute-Bound_example =
    execute-Bound runtime small_grant (obj write_program) digest (some permits) performs verifies
      provider_result executes

-- The modes 0o040700 and 0o140600.
abbrev directory : Metadata
directory = record { mode = 16832; uid = 501 }

abbrev socket : Metadata
socket = record { mode = 49536; uid = 501 }

validate_private_socket_iff_example :
    (validate_private_socket 501 (some directory) (some socket) ≡ ok tt)
    ↔ (Private 501 type_directory (some directory) × Private 501 type_socket (some socket))
validate_private_socket_iff_example = validate_private_socket_iff 501 (some directory) (some socket)
