-- ===== src/Native/Relay.antt =====
-- native_messaging.py: `NativeRelay`: its agent connection and its workspace, and the loop of `run` over
-- the extension's messages. An event is one step of one of the relay's threads.
use llm_wiki_chrome.Prelude.{
  ℕ, String, Bool, true, false, not, Option, none, some, List, [], ◌∷◌, ltb, eqb, length, map,
  if◌then◌else◌,
}
use llm_wiki_chrome.Result.{Result, ok, err, native_error}
use llm_wiki_chrome.Json.{Value, Fields, str, obj, end, field, get, is_text}
use llm_wiki_chrome.Runtime.{Runtime}
use llm_wiki_chrome.Protocol.Names.{browser_protocol}
use llm_wiki_chrome.Grants.Defs.{Workspace}
use llm_wiki_chrome.Native.Frames.{Codec, max_message_bytes}
use llm_wiki_chrome.Native.Messages.{no_workspace, update_collaboration}
use llm_wiki_chrome.Native.Agent.{Session, new_session, Output, to_extension, to_agent, receive}

-- `stopped` is the end of `run`, by the end of the input or by an exception.
pub record Relay : Type 0 where
  pub workspace : Workspace
  pub agent : Option (ℕ × Session)
  pub stopped : Bool

pub data Event : Type 0 where
  accept : ℕ → Event
  received : ℕ → List ℕ → Event
  from_extension : Fields → Event
  input_ended : Event

-- What is written, to the extension or to the connection with that number.
pub data Sent : Type 0 where
  extension : Value → Sent
  agent : ℕ → Value → Sent

abbrev pub init : Relay
init = record { workspace = no_workspace; agent = none; stopped = false }

abbrev error_message : String → Value
error_message reason = obj (
    field "protocol" (str browser_protocol)
      (field "type" (str "error") (field "error" (str reason) end)))

abbrev send_from : ℕ → Output → Sent
send_from c (to_extension v) = extension v
send_from c (to_agent v) = agent c v

abbrev keep_agent : ℕ → Option Session → Option (ℕ × Session)
keep_agent c none = none
keep_agent c (some s) = some (c, s)

module _ (codec : Codec) (r : Runtime) where
  -- `_handle_agent` from its start to the first `recv`
  unfoldable pub accept_agent : Relay → ℕ → Relay × List Sent
  accept_agent relay c = elim relay.agent [
    | none ↦ (record relay { agent = some (c, new_session) }, [])
    | some _ ↦ (relay, agent c (error_message "another bounded browser job is already active") ∷ [])
  ]

  -- A chunk of the agent's connection; other connections are closed.
  unfoldable pub receive_from : Relay → ℕ → List ℕ → Relay × List Sent
  receive_from relay c chunk = elim relay.agent [
    | none ↦ (relay, [])
    | some (a, s) ↦
        let turn = receive codec relay.workspace s chunk in
        elim (eqb a c) [
          | true ↦
              (record relay { agent = keep_agent a turn.session }, map (send_from a) turn.outputs)
          | false ↦ (relay, [])
        ]
  ]

  -- `_write_agent`, whose exception ends `run`
  unfoldable pub write_agent : Relay → Fields → Relay × List Sent
  write_agent relay fs =
      if ltb max_message_bytes (length (codec.dumps (obj fs)))
      then (record relay { agent = none; stopped = true }, [])
      else elim relay.agent [ none ↦ (relay, []) | some (a, s) ↦ (relay, agent a (obj fs) ∷ []) ]

  -- `except NativeMessagingError`; any other exception ends `run`.
  unfoldable pub set_workspace : Relay → Result Workspace → Relay × List Sent
  set_workspace relay (ok w) = (record relay { workspace = w }, [])
  set_workspace relay (err (native_error reason)) =
      (relay, extension (error_message "extension collaboration state is invalid") ∷ [])
  set_workspace relay (err e) = (record relay { agent = none; stopped = true }, [])

  unfoldable pub handle_extension : Relay → Fields → Relay × List Sent
  handle_extension relay fs =
      if not (is_text browser_protocol (get "protocol" fs))
      then (relay, extension (error_message "extension protocol does not match native host") ∷ [])
      else if is_text "collaborations" (get "type" fs)
      then set_workspace relay (update_collaboration r fs)
      else write_agent relay fs

  unfoldable pub step : Relay → Event → Relay × List Sent
  step relay (accept c) = accept_agent relay c
  step relay (received c chunk) = receive_from relay c chunk
  step relay (from_extension fs) = handle_extension relay fs
  step relay input_ended = (record relay { agent = none; stopped = true }, [])

  -- Events behind the end of `run` do nothing.
  unfoldable pub run : Relay → List Event → Relay
  run relay [] = relay
  run relay (e ∷ events) = run (if relay.stopped then relay else (step relay e).0) events
