-- ===== src/Collaboration/Tool.antt =====
-- collaboration.py: what the methods of `BrowserCollaborationController` share. A method is an action
-- over the recording, which also lists the jobs that it gives to the client, in order, whether it
-- returns or raises.
use llm_wiki_chrome.Prelude.{ℕ, String, List, [], ◌∷◌, ◌++◌, Option, Bool}
use llm_wiki_chrome.Result.{Result, ok, err}
use llm_wiki_chrome.Json.{Value, Fields}
use llm_wiki_chrome.Runtime.{Runtime}
use llm_wiki_chrome.Grants.Defs.{Grant}
use llm_wiki_chrome.Client.Outcome.{Outcome}
use llm_wiki_chrome.Policy.Roots.{FilePath, FileSystem, LocalBrowserPolicy}

-- A call of `client.run`: its program, the private values, and whether the callback is given.
pub record Job : Type 0 where
  pub program : Value
  pub private_values : Value
  pub authorizes : Bool

pub record Step : Type 0 where
  pub operation : String
  pub arguments : Fields

-- The start time of a recording is written and never read, and is left out.
pub record Recording : Type 0 where
  pub recording_id : String
  pub steps : List Step

-- What the controller calls: the client, the policy and the files. `published n url` is the answer of
-- the n-th `client.collaboration_for_url(url)` of a method.
pub record World : Type 0 where
  pub runtime : Runtime
  pub listed : Result (List Grant)
  pub answer : Job → Result Outcome
  pub published : ℕ → String → Result (Option Grant)
  pub policy : LocalBrowserPolicy
  pub files : FileSystem
  pub file_sha256 : FilePath → Result String
  pub file_size : FilePath → Result ℕ
  pub path_text : FilePath → String
  -- json.dumps(value, separators=(",", ":"))
  pub json_text : Value → String

pub record Done (A : Type 0) : Type 0 where
  pub jobs : List Job
  pub recording : Option Recording
  pub result : Result A

abbrev pub Tool : Type 0 → Type 0
Tool A = Option Recording → Done A

-- The jobs of an earlier part stand in front.
abbrev pub behind : {A : Type 0} → List Job → Done A → Done A
behind jobs d = record { jobs = jobs ++ d.jobs; recording = d.recording; result = d.result }

abbrev pub follow : {A B : Type 0} → Done A → Result A → (A → Tool B) → Done B
follow d (ok a) next = behind d.jobs (next a d.recording)
follow d (err e) next = record { jobs = d.jobs; recording = d.recording; result = err e }

infixl 5 ◌>>=◌ ◌>>◌
unfoldable pub ◌>>=◌ : {A B : Type 0} → Tool A → (A → Tool B) → Tool B
◌>>=◌ m next s = follow (m s) (m s).result next

abbrev pub ◌>>◌ : {B : Type 0} → Tool (Unit {0}) → Tool B → Tool B
m >> rest = m >>= λ _. rest

-- A part that calls no client and leaves the recording.
unfoldable pub lift : {A : Type 0} → Result A → Tool A
lift m s = record { jobs = []; recording = s; result = m }

abbrev pub pure : {A : Type 0} → A → Tool A
pure a = lift (ok a)

-- `self.client.run(...)`
unfoldable pub client_run : World → Job → Tool Outcome
client_run world job s = record { jobs = job ∷ []; recording = s; result = world.answer job }
