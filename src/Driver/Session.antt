-- ===== src/Driver/Session.antt =====
-- driver.py: the constructor and `execute`.
use llm_wiki_chrome.Prelude.{
  String, Bool, false, not, ◌&&◌, ◌||◌, ◌==◌, Option, List, [], ◌∷◌, select, is_some,
}
use llm_wiki_chrome.Result.{Result, ok, err, driver_error, type_error, raise_if, ◌>>=◌, ◌>>◌}
use llm_wiki_chrome.Text.{is_sha256}
use llm_wiki_chrome.Json.{Value, str, obj, get, is_text}
use llm_wiki_chrome.Runtime.{Runtime}
use llm_wiki_chrome.Protocol.Order.{fields_of}
use llm_wiki_chrome.Protocol.Program.{validate_program}
use llm_wiki_chrome.Grants.Defs.{Grant}
use llm_wiki_chrome.Client.Outcome.{Outcome}
use llm_wiki_chrome.Client.Call.{Callback}
use llm_wiki_chrome.Client.Connectors.{is_target}

unfoldable pub exactly_one : List Grant → Result Grant
exactly_one (g ∷ []) = ok g
exactly_one _ = err (driver_error "the exact click grant is unavailable")

-- The session's grant, from what `client.collaborations()` returns.
unfoldable pub open_session : (collaboration_id : String) → Result (List Grant) → Result Grant
open_session collaboration_id listed = do
  grants ← listed
  exactly_one (select (λ g. g.collaboration_id == collaboration_id) grants)

-- `hmac.compare_digest(plan, approved)` raises TypeError where the plan is no text.
unfoldable pub check_plan : Value → (approved : String) → Result (Unit {0})
check_plan (str plan) approved =
    raise_if (not (is_sha256 approved) || not (plan == approved))
      (driver_error "the program is not bound to the approved plan")
check_plan _ approved = do
  raise_if (not (is_sha256 approved)) (driver_error "the program is not bound to the approved plan")
  err type_error

pub record VerifiedProviderResult : Type 0 where
  pub execution : Outcome
  pub verification : Value

abbrev pub is_verified : Value → Bool
is_verified (obj fs) = is_text "verified" (get "status" fs)
is_verified _ = false

-- The checks of `execute` on the validated program.
unfoldable pub check_bound :
    (collaboration : Grant)
    → (approved : String) → Option Callback
    → (validated : Value) → Result (Unit {0})
check_bound collaboration approved authorize validated = do
  check_plan (get "plan_sha256" (fields_of validated)) approved
  raise_if (not (is_target (fields_of (get "target" (fields_of validated))) collaboration))
      (driver_error "the program target does not match the exact click grant")
  raise_if
      (is_text "agent-collaboration" (get "id" (fields_of (get "driver" (fields_of validated)))))
      (driver_error "targeted adapters require their own stable driver identity")
  raise_if (is_text "mutation" (get "capability" (fields_of validated)) && not (is_some authorize))
      (driver_error "mutation execution requires the adapter authorization callback")

-- The run and its verification.
unfoldable pub run_verified :
    (run : Value → Result Outcome)
    → (verify : Outcome → Result Value) → (validated : Value) → Result VerifiedProviderResult
run_verified run verify validated = do
  execution ← run validated
  raise_if (not (execution.status == "ok")) (driver_error "the bounded browser program failed")
  verification ← verify execution
  raise_if (not (is_verified verification))
      (driver_error "the targeted adapter did not verify its postconditions")
  ok (record { execution = execution; verification = verification })

unfoldable pub execute :
    Runtime
    → (collaboration : Grant) → (program : Value) → (approved : String) → Option Callback
    → (run : Value → Result Outcome) → (verify : Outcome → Result Value)
    → Result VerifiedProviderResult
execute r collaboration program approved authorize run verify =
    validate_program r program >>= λ validated.
    check_bound collaboration approved authorize validated >> run_verified run verify validated
