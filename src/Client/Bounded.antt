-- ===== src/Client/Bounded.antt =====
-- What the client accepts as the result of a job.
use llm_wiki_chrome.Prelude.{
  String, ◌≡◌, ◌∙◌, ◌⊎◌, inl, inr, Bool, true, false, not, ◌&&◌, ◌==◌, eq_iff, List, [], ◌∷◌,
  subset, arith, In,
}
use llm_wiki_chrome.Sets.{subset-In, contains-In}
use llm_wiki_chrome.Result.{ok}
use llm_wiki_chrome.Text.{is_identifier}
use llm_wiki_chrome.Json.{Value, Fields, str, obj, get, has, keys, is_text, str_and, member}
use llm_wiki_chrome.Protocol.Guards.{text_of}
use llm_wiki_chrome.Client.Outcome.{Outcome, permitted, check_public, check_fields, validate_result}

-- What the tests of the fields leave.
pub record Bounded (message program : Fields) (authorized : Bool) (o : Outcome) : Type 0 where
  pub public_declared : subset (keys o.public) (permitted "public_fields" program) ≡ true
  pub private_declared : subset (keys o.private) (permitted "private_fields" program) ≡ true
  pub authority :
      (o.status == "ok" && is_text "mutation" (get "capability" program) && not authorized) ≡ false
  pub no_error : (o.status == "ok" && has "error" message) ≡ false
  pub generic_error :
      (o.status == "error" && not (str_and is_identifier (get "error" message))) ≡ false
  pub public_ok : check_public program o.status o.public o.private ≡ ok tt

check_fields-Bounded :
    (message : Fields) (job_id : String) (program : Fields) (authorized : Bool) (status : String)
    (a b : Value) (o : Outcome)
    → check_fields message job_id program authorized status a b ≡ ok o
    → Bounded message program authorized o × (o.status ≡ status)
unfolding check_fields
check_fields-Bounded message job_id program authorized status (obj a) (obj b) o h = ground arith
check_fields-Bounded message job_id program authorized status _ _ o h = absurd (cc)

validate_result-steps :
    (message : Fields) (job_id : String) (program : Fields) (authorized : Bool) (o : Outcome)
    → validate_result message job_id program authorized ≡ ok o
    → (is_text "result" (get "type" message) ≡ true)
      × (is_text job_id (get "job_id" message) ≡ true)
      × (member (get "status" message) ("ok" ∷ "error" ∷ []) ≡ ok true)
      × (check_fields message job_id program authorized
            (text_of (get "status" message))
            (get "public" message)
            (get "private" message)
          ≡ ok o)
unfolding validate_result
validate_result-steps message job_id program authorized o h = ground arith

member-text : (v : Value) (names : List String) → member v names ≡ ok true → In (text_of v) names
unfolding member text_of
member-text (str s) names h = contains-In names s (ground arith)
member-text _ names h = absurd (cc)

pub validate_result-Bounded :
    (message : Fields) (job_id : String) (program : Fields) (authorized : Bool) (o : Outcome)
    → validate_result message job_id program authorized ≡ ok o
    → Bounded message program authorized o × ((o.status ≡ "ok") ⊎ (o.status ≡ "error"))
validate_result-Bounded message job_id program authorized o h =
    let (_, _, known, rest) = validate_result-steps message job_id program authorized o h in
    let (bounded, same) = check_fields-Bounded message job_id program authorized _ _ _ o rest in
    (bounded, two_statuses (member-text (get "status" message) ("ok" ∷ "error" ∷ []) known) same)
  where
    two_statuses :
        In (text_of (get "status" message)) ("ok" ∷ "error" ∷ [])
        → o.status ≡ text_of (get "status" message)
        → (o.status ≡ "ok") ⊎ (o.status ≡ "error")
    two_statuses (inl e) q = inl (q ∙ e)
    two_statuses (inr (inl e)) q = inr (q ∙ e)
    two_statuses (inr (inr e)) q = absurd e

module _ (message : Fields) (job_id : String) (program : Fields) (authorized : Bool) (o : Outcome)
    (accepted : validate_result message job_id program authorized ≡ ok o) where
  abbrev bounds : Bounded message program authorized o
  bounds = (validate_result-Bounded message job_id program authorized o accepted).0

  -- A public field of a result that the client returns is one that the program declares.
  validate_result-public :
      (key : String) → In key (keys o.public) → In key (permitted "public_fields" program)
  validate_result-public key =
      subset-In (keys o.public) (permitted "public_fields" program) key bounds.public_declared

  -- A private field of a result that the client returns is one that the program declares.
  validate_result-private :
      (key : String) → In key (keys o.private) → In key (permitted "private_fields" program)
  validate_result-private key =
      subset-In (keys o.private) (permitted "private_fields" program) key bounds.private_declared

  -- A mutation that the client returns as successful was authorized.
  pub validate_result-authorized :
      o.status ≡ "ok" → get "capability" program ≡ str "mutation" → authorized ≡ true
  validate_result-authorized success mutation =
      ground (arith, bounds.authority, eq_iff o.status "ok", eq_iff "mutation" "mutation")
