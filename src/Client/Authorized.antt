-- ===== src/Client/Authorized.antt =====
-- The authorization of a job by its callback.
use llm_wiki_chrome.Prelude.{
  String, ◌≡◌, refl, inl, inr, Bool, true, false, List, [], ◌∷◌, arith, Bool-cases,
}
use llm_wiki_chrome.Result.{Error, ok}
use llm_wiki_chrome.Json.{Fields, str, get, is_text}
use llm_wiki_chrome.Client.Outcome.{Outcome, validate_result}
use llm_wiki_chrome.Client.Bounded.{validate_result-authorized}
use llm_wiki_chrome.Client.Job.{
  Arrival, message, failure, callback, send_authorized, at_boundary, run_loop,
}

module _ (job_id : String) (program : Fields) (permits : Bool) (refusal : Error) where
  -- Behind an authorization nothing more is called or sent.
  run_loop-quiet :
      (arrivals : List Arrival)
      → (run_loop job_id program permits refusal true arrivals).effects ≡ []
  unfolding run_loop at_boundary
  run_loop-quiet [] = refl
  run_loop-quiet (failure e ∷ arrivals) = refl
  run_loop-quiet (message fs ∷ arrivals) = ground arith

  -- A mutation that the client returns as successful has called its callback, which returned, and has sent
  -- one authorization, and nothing else.
  pub run_loop-mutation :
      (arrivals : List Arrival) (o : Outcome)
      → (run_loop job_id program permits refusal false arrivals).result ≡ ok o
      → o.status ≡ "ok"
      → get "capability" program ≡ str "mutation"
      → ((run_loop job_id program permits refusal false arrivals).effects
          ≡ callback ∷ send_authorized true ∷ [])
        × (permits ≡ true)
  unfolding run_loop at_boundary
  run_loop-mutation [] o h success mutation = absurd (cc)
  run_loop-mutation (failure e ∷ arrivals) o h success mutation = absurd (cc)
  run_loop-mutation (message fs ∷ arrivals) o h success mutation =
      elim (Bool-cases (is_text "before-mutation" (get "type" fs))) [
        | inl e ↦ ground (arith, run_loop-quiet arrivals)
        | inr e ↦ absurd (unauthorized (ground arith))
      ]
    where
      unauthorized : validate_result fs job_id program false ≡ ok o → ⊥
      unauthorized k = cc (validate_result-authorized fs job_id program false o k success mutation)
