-- ===== src/Collaboration/Bounded/Recordings.antt =====
-- The methods of Collaboration/Recordings.antt give the client no job.
use llm_wiki_chrome.Prelude.{◌≤◌, String, Option, none, some, arith, All, length}
use llm_wiki_chrome.Json.{Value}
use llm_wiki_chrome.Collaboration.Tool.{Recording, World}
use llm_wiki_chrome.Collaboration.Recordings.{
  recording_start, recording_status, recording_stop, tabs, status,
}
use llm_wiki_chrome.Collaboration.Runs.{IsShort, quiet, lift-Runs, no_job}
use llm_wiki_chrome.Collaboration.Bound.{IsBound}
use llm_wiki_chrome.Collaboration.Bounded.Parts.{Sends}

module _ (world : World) (id : Value) where
  pub recording_start-Sends : (new_id : String) → Sends world id (recording_start new_id)
  unfolding recording_start
  recording_start-Sends new_id = record {
    good = good;
    few = few;
    returns = λ s a q. tt;
    keeps = keeps;
  }
    where
      good : (s : Option Recording) → All (IsBound world id) (recording_start new_id s).jobs
      good none = tt
      good (some r) = tt

      few : (s : Option Recording) → length (recording_start new_id s).jobs ≤ 1
      few none = omega arith
      few (some r) = omega arith

      keeps : (s : Option Recording) → IsShort s → IsShort (recording_start new_id s).recording
      keeps none short = omega arith
      keeps (some r) short = short

  pub recording_status-Sends : Sends world id recording_status
  unfolding recording_status
  recording_status-Sends = record { good = good; few = few; returns = λ s a q. tt; keeps = keeps }
    where
      good : (s : Option Recording) → All (IsBound world id) (recording_status s).jobs
      good none = tt
      good (some r) = tt

      few : (s : Option Recording) → length (recording_status s).jobs ≤ 1
      few none = omega arith
      few (some r) = omega arith

      keeps : (s : Option Recording) → IsShort s → IsShort (recording_status s).recording
      keeps none short = tt
      keeps (some r) short = short

  pub recording_stop-Sends : Sends world id (recording_stop world)
  unfolding recording_stop
  recording_stop-Sends = record { good = good; few = few; returns = λ s a q. tt; keeps = keeps }
    where
      good : (s : Option Recording) → All (IsBound world id) (recording_stop world s).jobs
      good none = tt
      good (some r) = tt

      few : (s : Option Recording) → length (recording_stop world s).jobs ≤ 1
      few none = omega arith
      few (some r) = omega arith

      keeps : (s : Option Recording) → IsShort s → IsShort (recording_stop world s).recording
      keeps none short = tt
      keeps (some r) short = tt

  pub tabs-Sends : Sends world id (tabs world)
  unfolding tabs
  tabs-Sends = quiet (lift-Runs _) λ grants listed. no_job _

  pub status-Sends : Sends world id (status world)
  unfolding status
  status-Sends = quiet (lift-Runs _) λ grants listed. no_job _
