-- ===== src/Protocol/Declared.antt =====
-- What an accepted program declares: its private results, its private slots and its hash.
use llm_wiki_chrome.Prelude.{
  String, ◌≡◌, refl, sym, inl, inr, Bool, true, false, List, [], ◌∷◌, arith, In, contains,
  Bool-cases, same_set, ◌↔◌, ◌⊎◌, ◌==◌, if◌then◌else◌, Distinct, unique,
}
use mathlib.Core.Path.{subst}
use llm_wiki_chrome.Sets.{contains-In, In-contains, same_set-In, unique-Distinct}
use llm_wiki_chrome.Result.{ok}
use llm_wiki_chrome.Json.{
  is_text-str, is_null, null, Value, Fields, str, obj, get, arr, texts, member, without, nil,
  items_of,
}
use llm_wiki_chrome.Runtime.{Runtime}
use llm_wiki_chrome.Protocol.Checks.{canonical_program_sha256}
use llm_wiki_chrome.Protocol.Actions.{iter_actions, max_levels}
use llm_wiki_chrome.Protocol.Guards.{text_of, need_member}
use llm_wiki_chrome.Protocol.Interaction.{check_slots, check_dialogs}
use llm_wiki_chrome.Protocol.Order.{fields_of, op_of, extracted, extracting_operations, check_order}
use llm_wiki_chrome.Protocol.Program.{
  get_or, validate_slots, private_names, validate_result, validate_program,
}
use llm_wiki_chrome.Protocol.Accepted.{
  Accepted, validate_program-Accepted, actions_of, Accepted-flat,
}
use llm_wiki_chrome.Protocol.Checked.{Checked, facts, validate_program-Checked}

-- The texts that a program lists under a key, none where the key is missing.
abbrev pub listed : String → Value → List String
listed key v = texts (items_of (get_or key (arr nil) (fields_of v)))

-- Some action of the list extracts a result of that name.
pub data Extracts (name : String) : List Fields → Type 0 where
  here :
      {action : Fields} {flat : List Fields}
      → In (op_of action) extracting_operations
      → text_of (get "private_result" action) ≡ name
      → Extracts name (action ∷ flat)
  there :
      {action : Fields} {flat : List Fields} → Extracts name flat → Extracts name (action ∷ flat)

In-extracted : (name : String) (flat : List Fields) → In name (extracted flat) → Extracts name flat
unfolding extracted
In-extracted name [] m = elim m [ ]
In-extracted name (action ∷ flat) m =
    split (contains extracting_operations (op_of action)) refl m (λ k. In-extracted name flat k)
  where
    split :
        (b : Bool)
        → contains extracting_operations (op_of action) ≡ b
        → In name (elim b [
          | true ↦ text_of (get "private_result" action) ∷ extracted flat
          | false ↦ extracted flat
        ])
        → (In name (extracted flat) → Extracts name flat)
        → Extracts name (action ∷ flat)
    split true e (inl q) later = here (contains-In extracting_operations (op_of action) e) (sym q)
    split true e (inr k) later = there (later k)
    split false e k later = there (later k)

extracted-hit :
    (action : Fields) (flat : List Fields)
    → contains extracting_operations (op_of action) ≡ true
    → extracted (action ∷ flat) ≡ text_of (get "private_result" action) ∷ extracted flat
unfolding extracted
extracted-hit action flat e = ground arith

extracted-miss :
    (action : Fields) (flat : List Fields)
    → contains extracting_operations (op_of action) ≡ false
    → extracted (action ∷ flat) ≡ extracted flat
unfolding extracted
extracted-miss action flat e = ground arith

extracted-In : (name : String) (flat : List Fields) → Extracts name flat → In name (extracted flat)
extracted-In name [] m = elim m [ ]
extracted-In name (action ∷ flat) (here op q) =
    subst (λ l. In name l)
      (sym (extracted-hit action flat (In-contains extracting_operations (op_of action) op)))
      (inl (sym q))
extracted-In name (action ∷ flat) (there m) =
    elim (Bool-cases (contains extracting_operations (op_of action))) [
      | inl e ↦
          subst (λ l. In name l) (sym (extracted-hit action flat e))
            (inr (extracted-In name flat m))
      | inr e ↦
          subst (λ l. In name l) (sym (extracted-miss action flat e)) (extracted-In name flat m)
    ]

check_order-results :
    (fs : Fields) (flat : List Fields) (private : List String)
    → check_order fs flat private ≡ ok tt
    → same_set (extracted flat) private ≡ true
unfolding check_order
check_order-results fs flat private h = ground arith

private_names-eq :
    (v : Value) (private : List String)
    → private_names v ≡ ok private
    → (private ≡ texts (items_of v)) × (unique private ≡ true)
unfolding private_names
private_names-eq v private h = ground arith

validate_result-eq :
    (v : Value) (private : List String)
    → validate_result v ≡ ok private
    → (private ≡ listed "private_fields" v) × (unique private ≡ true)
unfolding validate_result
validate_result-eq (obj fs) private h =
    private_names-eq (get_or "private_fields" (arr nil) fs) private (ground arith)
validate_result-eq _ private h = absurd (cc)

validate_slots-eq :
    (v : Value) (slots : List String) → validate_slots v ≡ ok slots → slots ≡ texts (items_of v)
unfolding validate_slots
validate_slots-eq v slots h = ground arith

check_slots-member :
    (r : Runtime) (slots results : List String) (target : Fields) (op : String) (action : Fields)
    → check_slots r slots results target op action ≡ ok tt
    → contains
        ("insert_private_text" ∷ "assert_ax_private_value" ∷ "wait_ax_private_value"
          ∷ "assert_ax_private_sha256" ∷ "set_private_files" ∷ [])
        op
      ≡ true
    → member (get "slot" action) slots ≡ ok true
unfolding check_slots need_member
check_slots-member r slots results target op action h e = ground arith

-- The operations that take a slot by the field `slot`.
abbrev pub slot_operations : List String
slot_operations =
    "insert_private_text" ∷ "assert_ax_private_value" ∷ "wait_ax_private_value"
    ∷ "assert_ax_private_sha256" ∷ "set_private_files" ∷ []

-- The field that names the slot.
abbrev pub slot_key : String → String
slot_key op = if op == "handle_dialog" then "prompt_slot" else "slot"

slot_key-slot : (op : String) → In op slot_operations → slot_key op ≡ "slot"
slot_key-slot op m = elim m [
  | inl e ↦ rw e refl
  | inr (inl e) ↦ rw e refl
  | inr (inr (inl e)) ↦ rw e refl
  | inr (inr (inr (inl e))) ↦ rw e refl
  | inr (inr (inr (inr (inl e)))) ↦ rw e refl
  | inr (inr (inr (inr (inr none_left)))) ↦ elim none_left [ ]
]

null-cases : (v : Value) → (v ≡ null) ⊎ (is_null v ≡ false)
null-cases null = inl refl
null-cases _ = inr refl

check_dialogs-member :
    (r : Runtime) (slots results : List String) (target : Fields) (op : String) (action : Fields)
    → check_dialogs r slots results target op action ≡ ok tt
    → contains ("handle_dialog" ∷ []) op ≡ true
    → is_null (get "prompt_slot" action) ≡ false
    → member (get "prompt_slot" action) slots ≡ ok true
unfolding check_dialogs need_member
check_dialogs-member r slots results target op action h e given = ground arith

member-In :
    (v : Value) (names : List String)
    → member v names ≡ ok true
    → (s : String) × (v ≡ str s) × In s names
unfolding member
member-In (str s) names h = (s, refl, contains-In names s (ground arith))
member-In _ names h = absurd (cc)

module _ (r : Runtime) (fs : Fields) (v : Value) (flat : List Fields)
    (accepted : validate_program r (obj fs) ≡ ok v)
    (walk : iter_actions max_levels (actions_of fs) ≡ ok flat) where
  abbrev all_facts : Accepted r fs
  all_facts = facts r fs v accepted

  -- The private results that an accepted program declares are distinct, and a name is declared exactly
  -- when some action, inside the branches too, extracts a result of that name.
  pub validate_program-private_results :
      (name : String)
      → Distinct (listed "private_fields" (get "result" fs))
        × (In name (listed "private_fields" (get "result" fs)) ↔ Extracts name flat)
  validate_program-private_results name =
      let (same, once) =
        validate_result-eq (get "result" fs) all_facts.private all_facts.private_ok in
      let sets =
        same_set-In (extracted all_facts.flat) all_facts.private name
          (check_order-results fs all_facts.flat all_facts.private all_facts.order_ok) in
      (
        subst (λ p. Distinct p) same (unique-Distinct all_facts.private once),
        (
          λ m. In-extracted name flat (rw (Accepted-flat all_facts flat walk) (sets.1 (rw same m))),
          λ m.
              subst (λ p. In name p) same
                (sets.0 (
                  subst (λ f. In name (extracted f)) (Accepted-flat all_facts flat walk)
                    (extracted-In name flat m))),
        ),
      )

  -- Every action of an accepted program that reads a private slot, also one inside a branch, names one that
  -- the program lists: five operations by `slot`, and `handle_dialog` by `prompt_slot`, which may also be
  -- null.
  pub validate_program-slots :
      (action : Fields)
      → In action flat
      → In (op_of action) ("handle_dialog" ∷ slot_operations)
      → ((op_of action ≡ "handle_dialog") × (get "prompt_slot" action ≡ null))
        ⊎ ((slot : String) × (get (slot_key (op_of action)) action ≡ str slot)
            × In slot (texts (items_of (get_or "private_slots" (arr nil) fs))))
  validate_program-slots action among op = elim op [
    | inl e ↦ elim (null-cases (get "prompt_slot" action)) [
      | inl none_given ↦ inl (e, none_given)
      | inr given ↦ inr (
          named (slot_key (op_of action)) (
            subst (λ name. member (get (slot_key name) action) all_facts.slots ≡ ok true) (sym e)
              (check_dialogs-member r all_facts.slots all_facts.private
                (fields_of (get "target" fs)) (op_of action) action checks.dialogs
                (In-contains ("handle_dialog" ∷ []) (op_of action) (inl e)) given)))
    ]
    | inr by_slot ↦ inr (
        named (slot_key (op_of action)) (
          subst (λ key. member (get key action) all_facts.slots ≡ ok true)
            (sym (slot_key-slot (op_of action) by_slot))
            (check_slots-member r all_facts.slots all_facts.private (fields_of (get "target" fs))
              (op_of action) action checks.slots_declared (In-contains _ (op_of action) by_slot))))
  ]
    where
      checks :
          Checked r all_facts.slots all_facts.private
            (fields_of (get "target" fs))
            (op_of action)
            action
      checks = (validate_program-Checked r fs v accepted flat action walk among).2

      named :
          (key : String)
          → member (get key action) all_facts.slots ≡ ok true
          → (slot : String) × (get key action ≡ str slot)
            × In slot (texts (items_of (get_or "private_slots" (arr nil) fs)))
      named key h =
          let (slot, text, m) = member-In (get key action) all_facts.slots h in
          (
            slot,
            text,
            subst (λ p. In slot p) (validate_slots-eq _ all_facts.slots all_facts.slots_ok) m,
          )

-- An accepted program is returned as it was given, and its `program_sha256` is the hash of the
-- canonical text of the program without that field.
pub validate_program-hash :
    (r : Runtime) (fs : Fields) (v : Value)
    → validate_program r (obj fs) ≡ ok v
    → (v ≡ obj fs)
      × (get "program_sha256" fs ≡ str (r.sha256 (r.dumps (obj (without "program_sha256" fs)))))
unfolding canonical_program_sha256
validate_program-hash r fs v h =
    let (a, q) = validate_program-Accepted r fs v h in
    (q, is_text-str _ (get "program_sha256" fs) (ground (arith, a.hash_ok)))
