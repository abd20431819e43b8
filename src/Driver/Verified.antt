-- ===== src/Driver/Verified.antt =====
-- What a result of `execute` stands for.
use llm_wiki_chrome.Prelude.{
  String, ◌≡◌, ◌≢◌, true, false, not, ◌==◌, eq_iff, Option, arith, not-false,
}
use mathlib.Core.Path.{subst}
use llm_wiki_chrome.Result.{Result, ok, ◌>>◌, ok-injective, bind-ok, then-ok, past_check}
use llm_wiki_chrome.Json.{is_text-str, Value, Fields, str, get, is_text}
use llm_wiki_chrome.Runtime.{Runtime}
use llm_wiki_chrome.Protocol.Order.{fields_of}
use llm_wiki_chrome.Protocol.Program.{validate_program}
use llm_wiki_chrome.Protocol.Accepted.{validate_program-same}
use llm_wiki_chrome.Grants.Defs.{Grant}
use llm_wiki_chrome.Client.Outcome.{Outcome}
use llm_wiki_chrome.Client.Call.{Callback}
use llm_wiki_chrome.Client.Connectors.{is_target}
use llm_wiki_chrome.Driver.Session.{
  check_plan, VerifiedProviderResult, is_verified, check_bound, run_verified, execute,
}

-- What the checks of the validated program leave.
record Checks (g : Grant) (validated : Value) (approved : String) : Type 0 where
  plan : check_plan (get "plan_sha256" (fields_of validated)) approved ≡ ok tt
  target : is_target (fields_of (get "target" (fields_of validated))) g ≡ true
  own_identity :
      is_text "agent-collaboration" (get "id" (fields_of (get "driver" (fields_of validated))))
      ≡ false

-- What the run and its verification leave.
record Ran (validated : Value) (run : Value → Result Outcome) (verify : Outcome → Result Value)
    (result : VerifiedProviderResult) : Type 0 where
  ran : run validated ≡ ok result.execution
  success : (result.execution.status == "ok") ≡ true
  checked : verify result.execution ≡ ok result.verification
  verified : is_verified result.verification ≡ true

-- The facts about a program that `execute` ran.
pub record Bound (r : Runtime) (g : Grant) (program : Value) (approved : String)
    (run : Value → Result Outcome) (verify : Outcome → Result Value)
    (result : VerifiedProviderResult) : Type 0 where
  pub accepted : validate_program r program ≡ ok program
  pub plan : get "plan_sha256" (fields_of program) ≡ str approved
  pub same_grant :
      get "collaboration_id" (fields_of (get "target" (fields_of program))) ≡ str g.collaboration_id
  pub same_url : get "url" (fields_of (get "target" (fields_of program))) ≡ str g.url
  pub same_origin : get "origin" (fields_of (get "target" (fields_of program))) ≡ str g.origin
  pub own_identity :
      get "id" (fields_of (get "driver" (fields_of program))) ≢ str "agent-collaboration"
  pub ran : run program ≡ ok result.execution
  pub success : result.execution.status ≡ "ok"
  pub checked : verify result.execution ≡ ok result.verification
  pub verified : is_verified result.verification ≡ true

check_plan-eq : (v : Value) (approved : String) → check_plan v approved ≡ ok tt → v ≡ str approved
unfolding check_plan
check_plan-eq (str plan) approved h = ground (arith, eq_iff plan approved)
check_plan-eq _ approved h = absurd (ground arith)

is_text_not : (t : String) (v : Value) → is_text t v ≡ false → v ≢ str t
is_text_not t (str s) h e = ground (arith, eq_iff s t)
is_text_not t _ h e = cc

is_target-parts :
    (target : Fields) (g : Grant)
    → is_target target g ≡ true
    → (is_text g.collaboration_id (get "collaboration_id" target) ≡ true)
      × (is_text g.url (get "url" target) ≡ true)
      × (is_text g.origin (get "origin" target) ≡ true)
unfolding is_target
is_target-parts target g h = ground arith

check_bound-Checks :
    (g : Grant) (approved : String) (authorize : Option Callback) (validated : Value)
    → check_bound g approved authorize validated ≡ ok tt
    → Checks g validated approved
unfolding check_bound
check_bound-Checks g approved authorize validated h =
    let (plan, rest) =
      then-ok (check_plan (get "plan_sha256" (fields_of validated)) approved) _ h in
    let (target, rest') =
      past_check (not (is_target (fields_of (get "target" (fields_of validated))) g)) _ _ rest in
    let (own, _) =
      past_check
        (is_text "agent-collaboration" (get "id" (fields_of (get "driver" (fields_of validated)))))
        _ _ rest' in
    record { plan = plan; target = not-false _ target; own_identity = own }

run_verified-Ran :
    (run : Value → Result Outcome) (verify : Outcome → Result Value) (validated : Value)
    (result : VerifiedProviderResult)
    → run_verified run verify validated ≡ ok result
    → Ran validated run verify result
unfolding run_verified
run_verified-Ran run verify validated result h =
    let (execution, ran, rest) = bind-ok (run validated) _ h in
    let (success, rest') = past_check (not (execution.status == "ok")) _ _ rest in
    let (verification, checked, rest'') = bind-ok (verify execution) _ rest' in
    let (verified, last) = past_check (not (is_verified verification)) _ _ rest'' in
    subst (λ x. Ran validated run verify x) (ok-injective last)
      (record {
        ran = ran;
        success = not-false (execution.status == "ok") success;
        checked = checked;
        verified = not-false (is_verified verification) verified;
      })

-- When `execute` returns, the program passed the validator and was run as it was given, its plan is the
-- approved one, its target is exactly the session's grant, its driver is not the agent's, the run
-- succeeded, and the adapter's verification of that run answered "verified".
pub execute-Bound :
    (r : Runtime) (g : Grant) (program : Value) (approved : String) (authorize : Option Callback)
    (run : Value → Result Outcome) (verify : Outcome → Result Value)
    (result : VerifiedProviderResult)
    → execute r g program approved authorize run verify ≡ ok result
    → Bound r g program approved run verify result
unfolding execute
execute-Bound r g program approved authorize run verify result h =
    let (validated, accepted, rest) =
      bind-ok (validate_program r program)
        (λ p. check_bound g approved authorize p >> run_verified run verify p) h in
    let (bound, finished) =
      then-ok (check_bound g approved authorize validated) (run_verified run verify validated)
        rest in
    let same = validate_program-same r program validated accepted in
    let c =
      subst (λ p. Checks g p approved) same
        (check_bound-Checks g approved authorize validated bound) in
    let e =
      subst (λ p. Ran p run verify result) same
        (run_verified-Ran run verify validated result finished) in
    let (same_id, same_url, same_origin) =
      is_target-parts (fields_of (get "target" (fields_of program))) g c.target in
    record {
      accepted = rw same at accepted;
      plan = check_plan-eq (get "plan_sha256" (fields_of program)) approved c.plan;
      same_grant = is_text-str g.collaboration_id _ same_id;
      same_url = is_text-str g.url _ same_url;
      same_origin = is_text-str g.origin _ same_origin;
      own_identity = is_text_not "agent-collaboration" _ c.own_identity;
      ran = e.ran;
      success = (eq_iff result.execution.status "ok").0 e.success;
      checked = e.checked;
      verified = e.verified;
    }
