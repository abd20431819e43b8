-- ===== src/Collaboration/Compile.antt =====
-- collaboration.py: `_canonical_hash`, `_target`, `_program`, and the helpers of the methods that call
-- no client: `_collaboration`, `_collaboration_for_url`, `_require_ok` and `_mutation_receipt`.
use Prim.Native.String
use llm_wiki_chrome.Prelude.{
  ℕ, zero, suc, ◌+◌, ◌*◌, ◌^◌, ltb, String, Bool, true, false, not, ◌||◌, Option, none, some, List,
  [], ◌∷◌, ◌++◌, ◌==◌, leb, length, select, if◌then◌else◌, is_some,
}
use llm_wiki_chrome.Result.{
  Result, ok, err, collaboration_error, raise_if, type_error, key_error, policy_error, ◌>>=◌, ◌>>◌,
}
use llm_wiki_chrome.Text.{is_sha256}
use llm_wiki_chrome.Json.{
  Value, Fields, bool, int, pos, negsuc, float, dyadic, infinite, str, obj, dict, array, text_array,
  int_within, member, has, get, end, field,
}
use llm_wiki_chrome.Runtime.{Runtime}
use llm_wiki_chrome.Protocol.Names.{browser_protocol}
use llm_wiki_chrome.Protocol.Checks.{canonical_program_sha256}
use llm_wiki_chrome.Protocol.Target.{origin_of, or_value_error, number_of}
use llm_wiki_chrome.Protocol.Program.{validate_program, get_or}
use llm_wiki_chrome.Protocol.Guards.{text_of}
use llm_wiki_chrome.Grants.Defs.{Grant}
use llm_wiki_chrome.Client.Outcome.{Outcome}
use llm_wiki_chrome.Collaboration.Tool.{World}

abbrev pub driver_id : String
driver_id = "agent-collaboration"

unfoldable pub canonical_hash : Runtime → Value → String
canonical_hash r v = r.sha256 (r.dumps v)

-- `text[:n]`
unfoldable pub take_text : ℕ → String → String
take_text zero s = ""
take_text (suc n) String.[] = ""
take_text (suc n) (String.◌∷◌ c s) = String.◌∷◌ c (take_text n s)

abbrev pub target_of : Grant → Fields
target_of g = dict (
    ("url", str g.url)
    ∷ ("origin", str g.origin)
    ∷ ("path_prefixes", text_array ("/" ∷ []))
    ∷ ("collaboration_id", str g.collaboration_id)
    ∷ [])

-- The arguments of `_program` behind the grant, the defaults written out.
pub record Plan : Type 0 where
  pub operation : String
  pub actions : List Value
  pub capability : String
  pub private_slots : List String
  pub private_fields : List String
  pub timeout_ms : Value
  pub max_repeat : ℕ
  pub intent : Value

abbrev pub plan : String → List Value → Fields → Plan
plan operation actions intent = record {
  operation = operation;
  actions = actions;
  capability = "read";
  private_slots = [];
  private_fields = [];
  timeout_ms = int (pos 30_000);
  max_repeat = 5;
  intent = obj intent;
}

abbrev pub plan_sha256 : Runtime → Grant → Plan → String
plan_sha256 r g p = canonical_hash r (
    obj (
      dict (
        ("driver", str driver_id)
        ∷ ("operation", str p.operation)
        ∷ ("target", obj (target_of g))
        ∷ ("intent", p.intent)
        ∷ [])))

abbrev pub greater : ℕ → ℕ → ℕ
greater a b = if leb a b then b else a

abbrev pub public_fields : List String
public_fields = "status" ∷ "action_count" ∷ "mutation_started" ∷ "private_result_count" ∷ []

-- The program without its own hash, the plan's hash given.
abbrev pub unsigned : (plan_hash : String) → Grant → Plan → List (String × Value)
unsigned plan_hash g p =
    ("protocol", str browser_protocol)
    ∷ (
      "program_id",
      str (
          String.◌++◌ "agent-"
            (String.◌++◌ p.operation (String.◌++◌ "-" (take_text 16 plan_hash)))),
    )
    ∷ ("plan_sha256", str plan_hash)
    ∷ ("driver", obj (dict (("id", str driver_id) ∷ ("version", str "1") ∷ [])))
    ∷ ("capability", str p.capability)
    ∷ ("target", obj (target_of g))
    ∷ (
      "limits",
      obj (
          dict (
            ("timeout_ms", p.timeout_ms)
            ∷ ("max_actions", int (pos (greater 8 (length p.actions + 2))))
            ∷ ("max_repeat", int (pos p.max_repeat))
            ∷ [])),
    )
    ∷ ("private_slots", text_array p.private_slots)
    ∷ ("actions", array p.actions)
    ∷ (
      "result",
      obj (
          dict (
            ("public_fields", text_array public_fields)
            ∷ ("private_fields", text_array p.private_fields)
            ∷ [])),
    )
    ∷ []

abbrev pub program_fields : Runtime → Grant → Plan → Fields
program_fields r g p =
    let fields = unsigned (plan_sha256 r g p) g p in
    dict (fields ++ ("program_sha256", str (canonical_program_sha256 r (dict fields))) ∷ [])

unfoldable pub program : Runtime → Grant → Plan → Result Value
program r g p = validate_program r (obj (program_fields r g p))

unfoldable pub only_grant : List Grant → Result Grant
only_grant (g ∷ []) = ok g
only_grant _ = err (collaboration_error "that clicked-tab grant is no longer active")

unfoldable pub exact_id : Value → Result String
exact_id (str id) =
    if is_sha256 id then ok id else err (collaboration_error "collaboration_id is invalid")
exact_id _ = err (collaboration_error "collaboration_id is invalid")

abbrev error_code : Option String → String
error_code none = "browser-operation-failed"
error_code (some code) = code

-- `_require_ok`
unfoldable pub require_ok : Outcome → Result (Unit {0})
require_ok o =
    raise_if (not (o.status == "ok"))
      (collaboration_error (String.◌++◌ "browser executor failed: " (error_code o.error)))

-- `_mutation_receipt`
unfoldable pub mutation_receipt : Value → Outcome → List (String × Value)
mutation_receipt id o =
    ("status", str "ok")
    ∷ ("collaboration_id", id)
    ∷ ("action_count", get_or "action_count" (int (pos 0)) o.public)
    ∷ ("mutation_started", get_or "mutation_started" (bool false) o.public)
    ∷ []

module _ (world : World) where
  -- `_collaboration`
  unfoldable pub granted : (collaboration_id : Value) → Result Grant
  granted v = do
    id ← exact_id v
    grants ← world.listed
    only_grant (select (λ g. g.collaboration_id == id) grants)

  -- `_collaboration_for_url`, from the n-th attempt with that many left; the code makes twenty.
  unfoldable pub await_grant : (left n : ℕ) → String → Result Grant
  await_grant zero n url = err (collaboration_error "the updated exact-tab grant was not published")
  await_grant (suc left) n url =
      let rest = await_grant left (suc n) url in
      world.published n url >>= λ found. elim found [ none ↦ rest | some g ↦ ok g ]

abbrev pub attempts : ℕ
attempts = 20

-- The test of `open`, `history` and `navigate` on the URL that they go to.
unfoldable pub check_same_origin : (reason : String) → Runtime → Grant → String → Result (Unit {0})
check_same_origin reason r g target = do
  url ← or_value_error (r.urlsplit target)
  raise_if
      (not (url.scheme == "https")
        || is_some url.username
        || is_some url.password
        || not (url.fragment == "")
        || not (origin_of url == g.origin))
      (collaboration_error reason)

-- `type(value) is not int or not lo <= value <= hi`
unfoldable pub bounded_int : (lo hi : ℕ) → String → Value → Result ℕ
bounded_int lo hi reason v = do
  raise_if (not (int_within lo hi v)) (collaboration_error reason)
  ok (number_of v)

unfoldable pub boolean : String → Value → Result Bool
boolean reason (bool b) = ok b
boolean reason _ = err (collaboration_error reason)

-- `value not in names` raises TypeError for a list or an object
unfoldable pub one_of : List String → String → Value → Result String
one_of names reason v = do
  found ← member v names
  raise_if (not found) (collaboration_error reason)
  ok (text_of v)

-- `fields[key]`
unfoldable pub item_of : String → Fields → Result Value
item_of key fs = if has key fs then ok (get key fs) else err key_error

-- `value[key]`
unfoldable pub entry_of : String → Value → Result Value
entry_of key (obj fs) = item_of key fs
entry_of key _ = err type_error

-- `{**first, **second}`: an entry of `second` wins, so it stands in front.
unfoldable pub spread : (second first : Fields) → Fields
spread end first = first
spread (field key v rest) first = field key v (spread rest first)

-- `except PolicyError`
unfoldable pub policy_as_collaboration : {A : Type 0} → Result A → Result A
policy_as_collaboration (ok a) = ok a
policy_as_collaboration (err (policy_error reason)) = err (collaboration_error reason)
policy_as_collaboration (err e) = err e

-- `max(1000, value)`, which raises TypeError where the value is no number
unfoldable pub at_least_1000 : Value → Result Value
at_least_1000 (int (pos n)) = ok (int (pos (greater 1000 n)))
at_least_1000 (int (negsuc n)) = ok (int (pos 1000))
at_least_1000 (bool b) = ok (int (pos 1000))
at_least_1000 (float (dyadic (pos n) k)) =
    ok (if ltb (1000 * 2 ^ k) n then float (dyadic (pos n) k) else int (pos 1000))
at_least_1000 (float (infinite true)) = ok (float (infinite true))
at_least_1000 (float _) = ok (int (pos 1000))
at_least_1000 _ = err type_error
