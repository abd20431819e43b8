-- ===== src/Collaboration/Bound.antt =====
-- Every job of a controller's method: a program that the validator accepts, on a tab that is shared.
use llm_wiki_chrome.Prelude.{
  String, ◌≡◌, refl, sym, ◌∙◌, ap, Bool, inl, inr, List, [], ◌∷◌, In, arith, Option, none, some,
  Bool-cases, ◌==◌, eq_iff, leb, length, length-append, All,
}
use mathlib.Core.Path.{subst}
use llm_wiki_chrome.Picked.{select-In}
use llm_wiki_chrome.Result.{ok, bind-ok}
use llm_wiki_chrome.Json.{Value, Fields, str, obj, get, is_text}
use llm_wiki_chrome.Protocol.Order.{fields_of}
use llm_wiki_chrome.Protocol.Program.{validate_program}
use llm_wiki_chrome.Protocol.Accepted.{validate_program-same}
use llm_wiki_chrome.Grants.Defs.{Grant}
use llm_wiki_chrome.Client.Outcome.{Outcome}
use llm_wiki_chrome.Collaboration.Tool.{Job, Recording, World, lift, client_run}
use llm_wiki_chrome.Collaboration.Compile.{
  Plan, target_of, program_fields, program, only_grant, exact_id, granted, require_ok,
}
use llm_wiki_chrome.Collaboration.Calls.{max_steps, record_step, grant_of, run_plan}
use llm_wiki_chrome.Collaboration.Runs.{Runs, IsShort, quiet, then_quiet, lift-Runs, pure-Runs}

-- The grant is one that the client lists, with that id.
pub record IsShared (world : World) (id : Value) (g : Grant) : Type 0 where
  pub grants : List Grant
  pub listed : world.listed ≡ ok grants
  pub among : In g grants
  pub named : id ≡ str g.collaboration_id

-- The program is accepted, its target is the shared tab with that id, its driver is the agent's own, and the
-- job gives the callback exactly if the program is a mutation.
pub record IsBound (world : World) (id : Value) (job : Job) : Type 0 where
  pub grant : Grant
  pub shared : IsShared world id grant
  pub accepted : validate_program world.runtime job.program ≡ ok job.program
  pub on_tab : get "target" (fields_of job.program) ≡ obj (target_of grant)
  pub by_agent :
      get "id" (fields_of (get "driver" (fields_of job.program))) ≡ str "agent-collaboration"
  pub callback : job.authorizes ≡ is_text "mutation" (get "capability" (fields_of job.program))

only_grant-In : (grants : List Grant) (g : Grant) → only_grant grants ≡ ok g → In g grants
unfolding only_grant
only_grant-In [] g h = absurd (cc)
only_grant-In (x ∷ []) g h = inl (cc)
only_grant-In (x ∷ y ∷ grants) g h = absurd (cc)

exact_id-str : (v : Value) (id : String) → exact_id v ≡ ok id → v ≡ str id
unfolding exact_id
exact_id-str (str s) id h = ground arith
exact_id-str _ id h = absurd (cc)

require_ok-status : (o : Outcome) → require_ok o ≡ ok tt → o.status ≡ "ok"
unfolding require_ok
require_ok-status o h = ground (arith, eq_iff o.status "ok")

record_step-jobs :
    (operation : String) (arguments : Fields) (s : Option Recording)
    → (record_step operation arguments s).jobs ≡ []
unfolding record_step
record_step-jobs operation arguments none = refl
record_step-jobs operation arguments (some r) = ground arith

record_step-IsShort :
    (operation : String) (arguments : Fields) (s : Option Recording)
    → IsShort s
    → IsShort (record_step operation arguments s).recording
unfolding record_step
record_step-IsShort operation arguments none short = tt
record_step-IsShort operation arguments (some r) short =
    elim (Bool-cases (leb max_steps (length r.steps))) [
      | inl e ↦ rw e short
      | inr e ↦ rw e (
          ground (
            arith,
            length-append {0} r.steps
                (record { operation = operation; arguments = arguments } ∷ []),
          ))
    ]

module _ (world : World) (id : Value) where
  granted-IsShared : (g : Grant) → granted world id ≡ ok g → IsShared world id g
  unfolding granted
  granted-IsShared g h =
      let (s, exact, rest) = bind-ok (exact_id id) _ h in
      let (grants, listed, one) = bind-ok world.listed _ rest in
      let (among, same) =
        select-In (λ x. x.collaboration_id == s) grants g (only_grant-In _ g one) in
      record {
        grants = grants;
        listed = listed;
        among = among;
        named = exact_id-str id s exact ∙ ap str (sym ((eq_iff g.collaboration_id s).0 same));
      }

  pub grant_of-Runs : Runs (IsBound world id) 0 (grant_of world id) (IsShared world id)
  unfolding grant_of lift
  grant_of-Runs = record {
    good = λ s. tt;
    few = λ s. omega arith;
    returns = λ s g q. granted-IsShared g q;
    keeps = λ s short. short;
  }

  pub record_step-Runs :
      (operation : String) (arguments : Fields)
      → Runs (IsBound world id) 0 (record_step operation arguments) (λ a. Unit {0})
  record_step-Runs operation arguments = record {
    good = λ s.
        subst (λ jobs. All (IsBound world id) jobs) (sym (record_step-jobs operation arguments s))
          tt;
    few = λ s. rw (record_step-jobs operation arguments s) (omega arith);
    returns = λ s a q. tt;
    keeps = record_step-IsShort operation arguments;
  }

  compiled-IsBound :
      (g : Grant) (p : Plan) (values v : Value) (authorizes : Bool)
      → IsShared world id g
      → authorizes ≡ is_text "mutation" (str p.capability)
      → program world.runtime g p ≡ ok v
      → IsBound world id (record { program = v; private_values = values; authorizes = authorizes })
  unfolding program get
  compiled-IsBound g p values v authorizes shared callback h =
      let same : obj (program_fields world.runtime g p) ≡ v =
        sym (validate_program-same world.runtime _ v h) in
      subst
        (λ x.
          IsBound world id
            (record { program = x; private_values = values; authorizes = authorizes }))
        same
        (record {
          grant = g;
          shared = shared;
          accepted = h ∙ ap ok (sym same);
          on_tab = refl;
          by_agent = refl;
          callback = callback;
        })

  client_run-Runs :
      (job : Job)
      → IsBound world id job
      → Runs (IsBound world id) 1 (client_run world job) (λ o. Unit {0})
  unfolding client_run
  client_run-Runs job bound = record {
    good = λ s. (bound, tt);
    few = λ s. omega arith;
    returns = λ s a q. tt;
    keeps = λ s short. short;
  }

  pub run_plan-Runs :
      (g : Grant) (p : Plan) (values : Value) (authorizes : Bool)
      → IsShared world id g
      → authorizes ≡ is_text "mutation" (str p.capability)
      → Runs (IsBound world id) 1 (run_plan world g p values authorizes) (λ o. o.status ≡ "ok")
  unfolding run_plan
  run_plan-Runs g p values authorizes shared callback =
      quiet (lift-Runs (program world.runtime g p)) λ v compiled.
        then_quiet
          (client_run-Runs _ (compiled-IsBound g p values v authorizes shared callback compiled))
          λ o _. quiet (lift-Runs (require_ok o)) λ _ fine. pure-Runs o (require_ok-status o fine)
