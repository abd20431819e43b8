-- ===== src/Native/Invariant.antt =====
-- The relay's workspace after any events.
use llm_wiki_chrome.Prelude.{
  ℕ, ◌≡◌, refl, sym, ◌⊎◌, inl, inr, Bool, true, false, List, [], ◌∷◌, if◌then◌else◌, arith,
}
use mathlib.Core.Path.{subst}
use llm_wiki_chrome.Result.{Result, ok, err, native_error}
use llm_wiki_chrome.Json.{Fields}
use llm_wiki_chrome.Runtime.{Runtime}
use llm_wiki_chrome.Grants.Defs.{Workspace}
use llm_wiki_chrome.Grants.Valid.{IsWorkspace, validate_workspace-IsWorkspace}
use llm_wiki_chrome.Native.Frames.{Codec}
use llm_wiki_chrome.Native.Messages.{no_workspace, native_reasons, update_collaboration}
use llm_wiki_chrome.Native.Relay.{
  Relay, Event, accept, received, from_extension, input_ended, Sent, init, accept_agent,
  receive_from, write_agent, set_workspace, handle_extension, step, run,
}

module _ (codec : Codec) (r : Runtime) where
  no_workspace-IsWorkspace : IsWorkspace r no_workspace
  no_workspace-IsWorkspace = record {
    bounded = omega arith;
    grants = tt;
    distinct_ids = tt;
    distinct_urls = tt;
    selection = tt;
  }

  write_agent-workspace :
      (relay : Relay) (fs : Fields) → (write_agent codec r relay fs).0.workspace ≡ relay.workspace
  unfolding write_agent
  write_agent-workspace relay fs = ground arith

  -- What an update leaves: the workspace as it was, or an accepted one.
  abbrev Updates : Relay → Fields → Relay → Type 0
  Updates relay fs relay' =
      (relay'.workspace ≡ relay.workspace) ⊎ (update_collaboration r fs ≡ ok relay'.workspace)

  set_workspace-Updates :
      (relay : Relay) (fs : Fields) (m : Result Workspace)
      → update_collaboration r fs ≡ m
      → Updates relay fs (set_workspace codec r relay m).0
  unfolding set_workspace
  set_workspace-Updates relay fs (ok w) e = inr e
  set_workspace-Updates relay fs (err (native_error reason)) e = inl refl
  set_workspace-Updates relay fs (err _) e = inl refl

  handle_extension-Updates :
      (relay : Relay) (fs : Fields) → Updates relay fs (handle_extension codec r relay fs).0
  unfolding handle_extension
  handle_extension-Updates relay fs = choose _ _ _ (inl refl) (
      choose _ _ _ (set_workspace-Updates relay fs (update_collaboration r fs) refl)
        (inl (write_agent-workspace relay fs)))
    where
      choose :
          (b : Bool) (x y : Relay × List Sent)
          → Updates relay fs x.0
          → Updates relay fs y.0
          → Updates relay fs (if b then x else y).0
      choose true x y p q = p
      choose false x y p q = q

  accept_agent-workspace :
      (relay : Relay) (c : ℕ) → (accept_agent codec r relay c).0.workspace ≡ relay.workspace
  unfolding accept_agent
  accept_agent-workspace relay c = ground arith

  receive_from-workspace :
      (relay : Relay) (c : ℕ) (chunk : List ℕ)
      → (receive_from codec r relay c chunk).0.workspace ≡ relay.workspace
  unfolding receive_from
  receive_from-workspace relay c chunk = ground arith

  keeps : {w w' : Workspace} → w' ≡ w → IsWorkspace r w → IsWorkspace r w'
  keeps e h = subst (λ x. IsWorkspace r x) (sym e) h

  step-IsWorkspace :
      (relay : Relay) (e : Event)
      → IsWorkspace r relay.workspace
      → IsWorkspace r (step codec r relay e).0.workspace
  unfolding step update_collaboration
  step-IsWorkspace relay (accept c) h = keeps (accept_agent-workspace relay c) h
  step-IsWorkspace relay (received c chunk) h = keeps (receive_from-workspace relay c chunk) h
  step-IsWorkspace relay (from_extension fs) h = elim (handle_extension-Updates relay fs) [
    | inl e ↦ keeps e h
    | inr e ↦ validate_workspace-IsWorkspace r native_reasons "collaborations" fs _ e
  ]
  step-IsWorkspace relay input_ended h = h

  run_from-IsWorkspace :
      (relay : Relay) (events : List Event)
      → IsWorkspace r relay.workspace
      → IsWorkspace r (run codec r relay events).workspace
  unfolding run
  run_from-IsWorkspace relay [] h = h
  run_from-IsWorkspace relay (e ∷ events) h =
      run_from-IsWorkspace (if relay.stopped then relay else (step codec r relay e).0) events
        (next relay.stopped)
    where
      next : (b : Bool) → IsWorkspace r (if b then relay else (step codec r relay e).0).workspace
      next true = h
      next false = step-IsWorkspace relay e h

  -- After any events from the start, in any order, the relay's workspace is valid: at most sixteen exact
  -- grants with distinct ids and URLs, the selected one among them.
  pub run-IsWorkspace : (events : List Event) → IsWorkspace r (run codec r init events).workspace
  run-IsWorkspace events = run_from-IsWorkspace init events no_workspace-IsWorkspace
