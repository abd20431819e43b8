-- ===== src/Client/Call.antt =====
-- client.py: `BrowserExecutorClient.run`. What validate_private_socket, the connection and the sending of
-- the job raise enters as `connects`; job ids and arrivals come from outside.
use llm_wiki_chrome.Prelude.{String, Bool, true, false, ◌&&◌, not, Option, some, List, is_some}
use llm_wiki_chrome.Result.{Error, Result, ok, err, protocol_error, raise_if, ◌>>=◌, ◌>>◌}
use llm_wiki_chrome.Json.{Value, Fields, get, is_text}
use llm_wiki_chrome.Runtime.{Runtime}
use llm_wiki_chrome.Protocol.Order.{fields_of}
use llm_wiki_chrome.Protocol.Program.{validate_program}
use llm_wiki_chrome.Client.Outcome.{validate_private_values}
use llm_wiki_chrome.Client.Job.{Arrival, Run, ended, run_loop}
use llm_wiki_chrome.Client.Connectors.{Connector, connector_for_program}

-- What the callback does when it is called: it returns, or it raises.
pub data Callback : Type 0 where
  permits raises : Callback

abbrev pub returns : Option Callback → Bool
returns (some permits) = true
returns _ = false

unfoldable pub prepare :
    Runtime
    → Value
    → (private_values : Value) → Option Callback
    → List Connector
    → (connects : String → Result (Unit {0})) → Result Fields
prepare r program private_values callback connectors connects = do
  validated ← validate_program r program
  given ← validate_private_values r (fields_of validated) private_values
  raise_if (is_text "mutation" (get "capability" (fields_of validated)) && not (is_some callback))
      (protocol_error "mutation jobs require a before_mutation callback")
  path ← connector_for_program r connectors (fields_of validated)
  connects path
  ok (fields_of validated)

-- The loop behind a prepared job.
unfoldable pub run_prepared :
    Option Callback → (job_id : String) → List Arrival → Result Fields → Run
run_prepared callback job_id arrivals (ok program) =
    run_loop job_id program (returns callback) Error.callback_error false arrivals
run_prepared callback job_id arrivals (err e) = ended (err e)

unfoldable pub run :
    Runtime
    → Value
    → (private_values : Value) → Option Callback
    → List Connector
    → (connects : String → Result (Unit {0})) → (job_id : String) → List Arrival
    → Run
run r program private_values callback connectors connects job_id arrivals =
    run_prepared callback job_id arrivals
      (prepare r program private_values callback connectors connects)
