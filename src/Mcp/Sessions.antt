-- ===== src/Mcp/Sessions.antt =====
-- What the server has done at the end of its input.
use llm_wiki_chrome.Prelude.{
  ℕ, ◌≤◌, ◌+◌, String, ◌≡◌, refl, inl, inr, Bool-cases, Option, none, some, List, [], ◌∷◌, arith,
  All, In, length, length-append, contains,
}
use llm_wiki_chrome.Json.{Value}
use llm_wiki_chrome.Collaboration.Tool.{Job, World}
use llm_wiki_chrome.Collaboration.Reading.{snapshot}
use llm_wiki_chrome.Collaboration.Bound.{IsBound}
use llm_wiki_chrome.Collaboration.Bounded.Reading.{snapshot-Sends}
use llm_wiki_chrome.Collaboration.Schedules.{fires, step}
use llm_wiki_chrome.Collaboration.Schedules.Retained.{step-IsBounded, finish-IsBounded}
use llm_wiki_chrome.Collaboration.Runs.{Runs, All-append}
use llm_wiki_chrome.Mcp.Tools.{Controller}
use llm_wiki_chrome.Mcp.Serves.{IsKept}
use llm_wiki_chrome.Mcp.Server.{
  Served, served_first, Input, line, timer, works, Sent, Session, listed, started, thread_work,
  sent_to, run,
}
use llm_wiki_chrome.Mcp.Answers.{All-map, IsBoundToOne, IsHandled, serve_line-IsHandled}

-- The number of lines.
unfoldable pub lines : List Input → ℕ
lines [] = 0
lines (line world new_id request ∷ inputs) = 1 + lines inputs
lines (timer schedule_id ∷ inputs) = lines inputs
lines (works world schedule_id collaboration_id max_items ∷ inputs) = lines inputs

-- The number of snapshots that threads take.
unfoldable pub snapshots : List Input → ℕ
snapshots [] = 0
snapshots (line world new_id request ∷ inputs) = snapshots inputs
snapshots (timer schedule_id ∷ inputs) = snapshots inputs
snapshots (works world schedule_id collaboration_id max_items ∷ inputs) = 1 + snapshots inputs

-- What the client knows at the lines and at the snapshots.
unfoldable pub worlds : List Input → List World
worlds [] = []
worlds (line world new_id request ∷ inputs) = world ∷ worlds inputs
worlds (timer schedule_id ∷ inputs) = worlds inputs
worlds (works world schedule_id collaboration_id max_items ∷ inputs) = world ∷ worlds inputs

-- The job was given at a line or a snapshot, and is bound to a tab that was shared then.
pub record IsSent (known : List World) (sent : Sent) : Type 0 where
  pub given : In sent.world known
  pub bound : IsBoundToOne sent.world sent.job

pub record IsSession (inputs : List Input) (s : Session) : Type 0 where
  pub bound : All (IsSent (worlds inputs)) s.jobs
  pub few : length s.jobs ≤ lines inputs + snapshots inputs
  pub answers : length s.written ≤ lines inputs
  pub kept : IsKept s.controller

listed-few : (v : Option Value) → length (listed v) ≤ 1
listed-few none = omega arith
listed-few (some v) = omega arith

sent_to-IsSent :
    (world : World) (known : List World) (jobs : List Job)
    → All (IsBoundToOne world) jobs
    → All (IsSent (world ∷ known)) (sent_to world jobs)
sent_to-IsSent world known [] h = tt
sent_to-IsSent world known (job ∷ jobs) h =
    (record { given = inl refl; bound = h.0 }, sent_to-IsSent world known jobs h.1)

later-IsSent :
    (world : World) (known : List World) (jobs : List Sent)
    → All (IsSent known) jobs
    → All (IsSent (world ∷ known)) jobs
later-IsSent world known jobs h =
    All-map (λ job s. record { given = inr s.given; bound = s.bound }) jobs h

length-sent_to : (world : World) (jobs : List Job) → length (sent_to world jobs) ≡ length jobs
length-sent_to world [] = refl
length-sent_to world (job ∷ jobs) = omega (arith, length-sent_to world jobs)

line-IsSession :
    (world : World) (new_id : String) (request : Option Value) (inputs : List Input) (s : Served)
    (rest : Session)
    → IsHandled world s
    → IsSession inputs rest
    → IsSession (line world new_id request ∷ inputs) (served_first (sent_to world s.jobs) s rest)
unfolding lines snapshots worlds
line-IsSession world new_id request inputs s rest h r = record {
  bound =
      All-append (IsSent (world ∷ worlds inputs)) (sent_to world s.jobs) rest.jobs
        (sent_to-IsSent world (worlds inputs) s.jobs h.bound)
        (later-IsSent world (worlds inputs) rest.jobs r.bound);
  few = omega (
    arith,
    length-append {0} (sent_to world s.jobs) rest.jobs,
    length-sent_to world s.jobs,
    h.few,
    r.few,
  );
  answers =
      omega (
        arith,
        length-append {0} (listed s.response) rest.written,
        listed-few s.response,
        r.answers,
      );
  kept = r.kept;
}

thread_work-IsHandled :
    (world : World) (schedule_id : String) (collaboration_id max_items : Value) (c : Controller)
    → IsKept c
    → IsHandled world (thread_work world schedule_id collaboration_id max_items c)
      × ((thread_work world schedule_id collaboration_id max_items c).response ≡ none)
unfolding thread_work
thread_work-IsHandled world schedule_id collaboration_id max_items c k =
    elim (Bool-cases (contains c.scheduler.threads schedule_id)) [
      | inl e ↦ rw e (
        record {
          bound =
              All-map (λ job b. (collaboration_id, b))
                (snapshot world collaboration_id max_items c.recording).jobs
                (sends.good c.recording);
          few = sends.few c.recording;
          kept = record {
            short = sends.keeps c.recording k.short;
            bounded = finish-IsBounded c.scheduler schedule_id _ k.bounded;
          };
        },
        refl,
      )
      | inr e ↦ rw e (record { bound = tt; few = omega arith; kept = k }, refl)
    ]
  where
    sends :
        Runs
          (IsBound world collaboration_id)
          1
          (snapshot world collaboration_id max_items)
          (λ v. Unit {0})
    sends = snapshot-Sends world collaboration_id max_items

works-IsSession :
    (world : World) (schedule_id : String) (collaboration_id max_items : Value)
    (inputs : List Input) (s : Served) (rest : Session)
    → IsHandled world s
    → s.response ≡ none
    → IsSession inputs rest
    → IsSession
        (works world schedule_id collaboration_id max_items ∷ inputs)
        (served_first (sent_to world s.jobs) s rest)
unfolding lines snapshots worlds
works-IsSession world schedule_id collaboration_id max_items inputs s rest h quiet r = record {
  bound =
      All-append (IsSent (world ∷ worlds inputs)) (sent_to world s.jobs) rest.jobs
        (sent_to-IsSent world (worlds inputs) s.jobs h.bound)
        (later-IsSent world (worlds inputs) rest.jobs r.bound);
  few = omega (
    arith,
    length-append {0} (sent_to world s.jobs) rest.jobs,
    length-sent_to world s.jobs,
    h.few,
    r.few,
  );
  answers = rw quiet r.answers;
  kept = r.kept;
}

module _ (dumps ascii_dumps : Value → String) (tools : Value) where
  -- From a controller in its bounds, whatever lines come in, whatever timers fire and threads take their
  -- snapshots between two lines, with whatever arguments, and however the shared tabs change meanwhile, the
  -- client was given at most one job for each line and each snapshot. Each job is bound to a tab that was
  -- shared when it was given. At most one answer was written for each line, and the controller is in its bounds.
  pub run-IsSession :
      (inputs : List Input) (c : Controller)
      → IsKept c
      → IsSession inputs (run dumps ascii_dumps tools inputs c)
  unfolding run lines snapshots worlds step
  run-IsSession [] c k = record { bound = tt; few = omega arith; answers = omega arith; kept = k }
  run-IsSession (line world new_id request ∷ inputs) c k =
      let handled = serve_line-IsHandled world dumps ascii_dumps tools new_id request c k in
      line-IsSession world new_id request inputs _ _ handled (run-IsSession inputs _ handled.kept)
  run-IsSession (timer schedule_id ∷ inputs) c k =
      let after : IsKept (started schedule_id c) = record {
        short = k.short;
        bounded = step-IsBounded c.scheduler (fires schedule_id) k.bounded;
      } in
      let rest = run-IsSession inputs (started schedule_id c) after in
      record { bound = rest.bound; few = rest.few; answers = rest.answers; kept = rest.kept }
  run-IsSession (works world schedule_id collaboration_id max_items ∷ inputs) c k =
      let (handled, quiet) =
        thread_work-IsHandled world schedule_id collaboration_id max_items c k in
      works-IsSession world schedule_id collaboration_id max_items inputs _ _ handled quiet
        (run-IsSession inputs _ handled.kept)
