-- ===== src/Client/Job.antt =====
-- client.py: the loop of `BrowserExecutorClient.run` behind the connection, over what arrives: a message
-- that `_receive_line` returns, or the exception that it raises. Where nothing more arrives the time is
-- over.
use llm_wiki_chrome.Prelude.{
  String, Bool, true, false, not, ◌||◌, List, [], ◌∷◌, same_set, if◌then◌else◌,
}
use llm_wiki_chrome.Result.{Error, Result, err, client_error}
use llm_wiki_chrome.Json.{Fields, get, keys, is_text}
use llm_wiki_chrome.Client.Outcome.{Outcome, validate_result}

pub data Arrival : Type 0 where
  message : Fields → Arrival
  failure : Error → Arrival

-- What the client does meanwhile: it calls `before_mutation`, and it sends "mutation-authorized".
pub data Effect : Type 0 where
  callback : Effect
  send_authorized : Bool → Effect

pub record Run : Type 0 where
  pub effects : List Effect
  pub result : Result Outcome

abbrev pub ended : Result Outcome → Run
ended result = record { effects = []; result = result }

abbrev pub boundary_keys : List String
boundary_keys = "protocol" ∷ "type" ∷ "job_id" ∷ []

abbrev pub timed_out : Error
timed_out = client_error "timed out waiting for the browser executor"

-- `refusal` is the exception of the callback, if it raises one.
module _ (job_id : String) (program : Fields) (permits : Bool) (refusal : Error) where
  -- A boundary: `go` is the loop behind an authorization.
  unfoldable pub at_boundary : (authorized : Bool) → Fields → Run → Run
  at_boundary authorized fs go =
      if not (same_set (keys fs) boundary_keys)
      then ended (err (client_error "browser executor returned an invalid mutation boundary"))
      else if not (is_text "mutation" (get "capability" program))
          || not (is_text job_id (get "job_id" fs))
      then ended (err (client_error "browser executor returned an unexpected mutation boundary"))
      else if authorized
      then ended (err (client_error "browser executor repeated the mutation boundary"))
      else if permits
      then record { effects = callback ∷ send_authorized true ∷ go.effects; result = go.result }
      else record { effects = callback ∷ send_authorized false ∷ []; result = err refusal }

  unfoldable pub run_loop : (authorized : Bool) → List Arrival → Run
  run_loop authorized [] = ended (err timed_out)
  run_loop authorized (failure e ∷ arrivals) = ended (err e)
  run_loop authorized (message fs ∷ arrivals) =
      let go = run_loop true arrivals in
      if is_text "before-mutation" (get "type" fs)
      then at_boundary authorized fs go
      else ended (validate_result fs job_id program authorized)
