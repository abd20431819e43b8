-- ===== src/Client/Successful.antt =====
-- What a call of `run` that succeeds has done.
use llm_wiki_chrome.Prelude.{
  String, ◌≡◌, refl, true, false, Option, none, some, List, [], ◌∷◌, arith,
}
use llm_wiki_chrome.Result.{Error, Result, ok, err}
use llm_wiki_chrome.Json.{Value, Fields, str, get}
use llm_wiki_chrome.Runtime.{Runtime}
use llm_wiki_chrome.Protocol.Order.{fields_of}
use llm_wiki_chrome.Protocol.Program.{validate_program}
use llm_wiki_chrome.Protocol.Accepted.{validate_program-same}
use llm_wiki_chrome.Client.Outcome.{Outcome}
use llm_wiki_chrome.Client.Job.{Arrival, callback, send_authorized, run_loop}
use llm_wiki_chrome.Client.Authorized.{run_loop-mutation}
use llm_wiki_chrome.Client.Connectors.{Connector}
use llm_wiki_chrome.Client.Call.{Callback, permits, raises, returns, prepare, run_prepared, run}

returns-permits : (c : Option Callback) → returns c ≡ true → c ≡ some permits
returns-permits none h = absurd (cc)
returns-permits (some permits) h = refl
returns-permits (some raises) h = absurd (cc)

module _ (r : Runtime) (program : Value) (private_values : Value) (given : Option Callback)
    (connectors : List Connector) (connects : String → Result (Unit {0})) (job_id : String)
    (arrivals : List Arrival) where
  prepare-program :
      (fs : Fields)
      → prepare r program private_values given connectors connects ≡ ok fs
      → (validated : Value) × (validate_program r program ≡ ok validated)
        × (fs ≡ fields_of validated)
  unfolding prepare
  prepare-program fs h = ground arith

  run_prepared-ok :
      (m : Result Fields) (o : Outcome)
      → (run_prepared given job_id arrivals m).result ≡ ok o
      → (fs : Fields) × (m ≡ ok fs)
        × (run_prepared given job_id arrivals m
            ≡ run_loop job_id fs (returns given) Error.callback_error false arrivals)
  unfolding run_prepared
  run_prepared-ok (ok fs) o h = (fs, refl, refl)
  run_prepared-ok (err e) o h = absurd (cc)

  -- When `run` returns a success of a mutation, the program was accepted by the validator, the callback was
  -- called once and returned, and one authorization and no other answer was sent.
  pub run-mutation :
      (o : Outcome)
      → (run r program private_values given connectors connects job_id arrivals).result ≡ ok o
      → o.status ≡ "ok"
      → get "capability" (fields_of program) ≡ str "mutation"
      → (validate_program r program ≡ ok program)
        × ((run r program private_values given connectors connects job_id arrivals).effects
            ≡ callback ∷ send_authorized true ∷ [])
        × (given ≡ some permits)
  unfolding run
  run-mutation o h success mutation =
      let (fs, ready, same) =
        run_prepared-ok (prepare r program private_values given connectors connects) o h in
      let (validated, accepted, q) = prepare-program fs ready in
      let unchanged = validate_program-same r program validated accepted in
      let (effects, returned) =
        run_loop-mutation job_id fs (returns given) Error.callback_error arrivals o (rw same at h)
          success (rw (q, unchanged) mutation) in
      (rw unchanged at accepted, rw same effects, returns-permits given returned)
