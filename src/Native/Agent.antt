-- ===== src/Native/Agent.antt =====
-- native_messaging.py: `NativeRelay._handle_agent`, for a connection that is the relay's agent. What
-- is read arrives in chunks, each with the workspace of the relay at that time; an exception of the
-- loop is swallowed and closes the connection.
use llm_wiki_chrome.Prelude.{
  ℕ, String, Bool, true, false, not, ◌&&◌, ◌||◌, Option, none, some, List, [], ◌∷◌, ◌++◌, ltb, eqb,
  length, all, is_empty, same_set, if◌then◌else◌,
}
use llm_wiki_chrome.Text.{codes, is_hex}
use llm_wiki_chrome.Json.{Value, Fields, obj, get, keys, is_text, is_bool, str_and}
use llm_wiki_chrome.Protocol.Names.{browser_protocol}
use llm_wiki_chrome.Protocol.Guards.{text_of}
use llm_wiki_chrome.Grants.Defs.{Workspace}
use llm_wiki_chrome.Native.Frames.{Codec, max_message_bytes}
use llm_wiki_chrome.Native.Messages.{collaboration_status, collaboration_list}

pub record Session : Type 0 where
  pub buffer : List ℕ
  pub job_id : Option String
  pub reply_seen : Bool

abbrev pub new_session : Session
new_session = record { buffer = []; job_id = none; reply_seen = false }

pub data Output : Type 0 where
  to_extension to_agent : Value → Output

-- What one line does: it is passed on, or answered and the connection closed, or the connection is
-- closed by an exception.
pub data Reaction : Type 0 where
  forward : Session → Value → Reaction
  answer : Value → Reaction
  refuse : Reaction

abbrev pub is_job_id : String → Bool
is_job_id s = eqb (length (codes s)) 36 && all is_hex (codes s)

abbrev pub query_keys : List String
query_keys = "protocol" ∷ "type" ∷ []

module _ (codec : Codec) where
  -- `_write_extension` raises on a message that is too large
  unfoldable pub pass_on : Session → Fields → Reaction
  pass_on s fs =
      if ltb max_message_bytes (length (codec.dumps (obj fs))) then refuse else forward s (obj fs)

  unfoldable pub start_job : Session → Fields → Reaction
  start_job s fs =
      if not (is_text "job" (get "type" fs)) || not (str_and is_job_id (get "job_id" fs))
      then refuse
      else pass_on (record s { job_id = some (text_of (get "job_id" fs)) }) fs

  unfoldable pub reply_to : String → Session → Fields → Reaction
  reply_to id s fs =
      if not (is_text "mutation-authorized" (get "type" fs))
        || not (is_text id (get "job_id" fs))
        || s.reply_seen
        || not (is_bool (get "authorized" fs))
      then refuse
      else pass_on (record s { reply_seen = true }) fs

  unfoldable pub handle_message : Workspace → Session → Option String → Fields → Reaction
  handle_message w s none fs =
      if is_text "collaboration-query" (get "type" fs)
      then (if same_set (keys fs) query_keys then answer (obj (collaboration_status w)) else refuse)
      else if is_text "collaboration-list-query" (get "type" fs)
      then (if same_set (keys fs) query_keys then answer (obj (collaboration_list w)) else refuse)
      else start_job s fs
  handle_message w s (some id) fs = reply_to id s fs

  unfoldable pub handle_value : Workspace → Session → Option Value → Reaction
  handle_value w s (some (obj fs)) =
      if is_text browser_protocol (get "protocol" fs)
      then handle_message w s s.job_id fs
      else refuse
  handle_value w s _ = refuse

  unfoldable pub handle_line : Workspace → Session → List ℕ → Reaction
  handle_line w s line = handle_value w s (codec.loads line)

-- The lines that end in a newline, and what stands behind the last of them.
unfoldable pub split_lines : List ℕ → List (List ℕ) × List ℕ
split_lines [] = ([], [])
split_lines (b ∷ bytes) = cut b (split_lines bytes)
  where
    cut : ℕ → List (List ℕ) × List ℕ → List (List ℕ) × List ℕ
    cut c (lines, rest) = elim (eqb c 10) [
      | true ↦ ([] ∷ lines, rest)
      | false ↦ elim lines [ [] ↦ ([], c ∷ rest) | line ∷ more ↦ ((c ∷ line) ∷ more, rest) ]
    ]

-- The session that goes on, none where the connection is closed, and what was sent.
pub record Turn : Type 0 where
  pub session : Option Session
  pub outputs : List Output

abbrev pub closed : Turn
closed = record { session = none; outputs = [] }

abbrev pub emit : Output → Turn → Turn
emit o t = record { session = t.session; outputs = o ∷ t.outputs }

-- What is sent for a reaction, and `go` for the lines behind it.
unfoldable pub react : Reaction → (Session → Turn) → Turn
react (forward s v) go = emit (to_extension v) (go s)
react (answer v) go = record { session = none; outputs = to_agent v ∷ [] }
react refuse go = closed

module _ (codec : Codec) where
  -- `while b"\n" in buffer`, over the lines that the buffer holds
  unfoldable pub handle_lines : Workspace → Session → List (List ℕ) → List ℕ → Turn
  handle_lines w s [] rest = record { session = some (record s { buffer = rest }); outputs = [] }
  handle_lines w s (line ∷ lines) rest =
      react (handle_line codec w s line) (λ s'. handle_lines w s' lines rest)

  -- One `recv`; an empty chunk is the end of the connection.
  unfoldable pub receive : Workspace → Session → List ℕ → Turn
  receive w s chunk =
      if is_empty chunk || ltb max_message_bytes (length (s.buffer ++ chunk))
      then closed
      else handle_lines w s (split_lines (s.buffer ++ chunk)).0 (split_lines (s.buffer ++ chunk)).1

  unfoldable pub serve_agent : Option Session → List (Workspace × List ℕ) → Turn
  serve_agent none chunks = closed
  serve_agent (some s) [] = record { session = some s; outputs = [] }
  serve_agent (some s) ((w, chunk) ∷ chunks) =
      let turn = receive w s chunk in
      let rest = serve_agent turn.session chunks in
      record { session = rest.session; outputs = turn.outputs ++ rest.outputs }
