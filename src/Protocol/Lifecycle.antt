-- ===== src/Protocol/Lifecycle.antt =====
-- The order of the operations of an accepted program: its lifecycle and its captures.
use llm_wiki_chrome.Prelude.{
  ◌≤◌, String, ◌≡◌, ◌⊎◌, inl, inr, true, false, not, ◌&&◌, ◌==◌, eq_iff, List, [], ◌∷◌, ◌++◌, arith,
  eqb, count, contains, index, In, leb, Bool-cases,
}
use llm_wiki_chrome.Sets.{index_split, count-zero-In}
use llm_wiki_chrome.Result.{ok}
use llm_wiki_chrome.Json.{Value, Fields, obj, get}
use llm_wiki_chrome.Runtime.{Runtime}
use llm_wiki_chrome.Protocol.Actions.{iter_actions, max_levels}
use llm_wiki_chrome.Protocol.Order.{
  operations, top_operations, once, first, last, before_last, check_lifecycle, check_capture,
  check_all_captures, check_order,
}
use llm_wiki_chrome.Protocol.Program.{validate_program}
use llm_wiki_chrome.Protocol.Accepted.{
  Accepted, validate_program-Accepted, actions_of, Accepted-flat,
}

check_order-lifecycle :
    (fs : Fields) (flat : List Fields) (private : List String)
    → check_order fs flat private ≡ ok tt
    → (check_lifecycle (top_operations (get "actions" fs)) (operations flat) ≡ ok tt)
      × (check_all_captures (top_operations (get "actions" fs)) (operations flat) ≡ ok tt)
unfolding check_order
check_order-lifecycle fs flat private h = ground arith

-- What the test of the lifecycle leaves.
record InOrder (top ops : List String) : Type 0 where
  opens : (first top == "open_or_focus_exact_url") ≡ true
  ends : contains ("detach_debugger" ∷ "close_target_tab" ∷ []) (last top) ≡ true
  open_once : count "open_or_focus_exact_url" ops ≡ 1
  attach_once : count "attach_debugger" ops ≡ 1
  detach_once : count "detach_debugger" ops ≡ 1
  attach_first : leb (index "detach_debugger" ops) (index "attach_debugger" ops) ≡ false
  close_last :
      (last top == "close_target_tab" && not (before_last top == "detach_debugger")) ≡ false

check_lifecycle-InOrder :
    (top ops : List String) → check_lifecycle top ops ≡ ok tt → InOrder top ops
unfolding check_lifecycle once
check_lifecycle-InOrder top ops h = ground arith

first-split :
    (s : String) (xs : List String)
    → (first xs == s) ≡ true
    → ¬ (s ≡ "")
    → (rest : List String) × (xs ≡ s ∷ rest)
unfolding first
first-split s [] h ne = absurd (ne (ground (arith, eq_iff "" s)))
first-split s (x ∷ xs) h ne = (xs, ground (arith, eq_iff x s))

-- A list that ends in `s`.
abbrev pub EndsIn : String → List String → Type 0
EndsIn s xs = (start : List String) × (xs ≡ start ++ s ∷ [])

last-EndsIn : (s : String) (xs : List String) → last xs ≡ s → ¬ (s ≡ "") → EndsIn s xs
unfolding last
last-EndsIn s [] h ne = absurd (ne (cc))
last-EndsIn s (x ∷ []) h ne = ([], cc)
last-EndsIn s (x ∷ y ∷ xs) h ne = let (start, q) = last-EndsIn s (y ∷ xs) h ne in (x ∷ start, cc)

before_last-split :
    (s t : String) (xs : List String)
    → before_last xs ≡ s
    → last xs ≡ t
    → ¬ (s ≡ "")
    → (start : List String) × (xs ≡ start ++ s ∷ t ∷ [])
unfolding before_last last
before_last-split s t [] h k ne = absurd (ne (cc))
before_last-split s t (x ∷ []) h k ne = absurd (ne (cc))
before_last-split s t (x ∷ y ∷ []) h k ne = ([], cc)
before_last-split s t (x ∷ y ∷ z ∷ xs) h k ne =
    let (start, q) = before_last-split s t (y ∷ z ∷ xs) h k ne in (x ∷ start, cc)

last_cases :
    (xs : List String)
    → contains ("detach_debugger" ∷ "close_target_tab" ∷ []) (last xs) ≡ true
    → (last xs == "close_target_tab" && not (before_last xs == "detach_debugger")) ≡ false
    → EndsIn "detach_debugger" xs
      ⊎ ((start : List String) × (xs ≡ start ++ "detach_debugger" ∷ "close_target_tab" ∷ []))
unfolding contains
last_cases xs h k = elim (Bool-cases (last xs == "close_target_tab")) [
  | inl e ↦ inr (
      before_last-split "detach_debugger" "close_target_tab" xs
        (ground (arith, eq_iff (before_last xs) "detach_debugger"))
        (ground (arith, eq_iff (last xs) "close_target_tab"))
        (λ q. ground (arith, eq_iff "detach_debugger" "")))
  | inr e ↦ inl (
      last-EndsIn "detach_debugger" xs
        (ground (
          arith,
          eq_iff "close_target_tab" (last xs),
          eq_iff (last xs) "close_target_tab",
          eq_iff "detach_debugger" (last xs),
        ))
        (λ q. ground (arith, eq_iff "detach_debugger" "")))
]

-- What the test of one capture leaves.
record CaptureInOrder (start stop : String) (top ops : List String) : Type 0 where
  same : count stop ops ≡ count start ops
  at_most_once : count start ops ≤ 1
  start_on_top : count start top ≡ count start ops
  stop_on_top : count stop top ≡ count stop ops
  start_first : (eqb (count start ops) 1 && leb (index stop ops) (index start ops)) ≡ false

check_capture-InOrder :
    (start stop reason : String) (top ops : List String)
    → check_capture start stop reason top ops ≡ ok tt
    → CaptureInOrder start stop top ops
unfolding check_capture
check_capture-InOrder start stop reason top ops h = ground arith

-- The operations of one kind of capture: none at all, or one start before one stop, both in the
-- program's own list and none in its branches.
abbrev pub CaptureBalanced : (start stop : String) (top ops : List String) → Type 0
CaptureBalanced start stop top ops =
    (¬ (In start ops) × ¬ (In stop ops))
    ⊎ ((count start top ≡ 1)
        × (count stop top ≡ 1)
        × (count start ops ≡ 1)
        × (count stop ops ≡ 1)
        × (a : List String) × (b : List String) × (c : List String) × (ops
            ≡ a ++ (start ∷ (b ++ stop ∷ c))))

CaptureInOrder-Balanced :
    (start stop : String) (top ops : List String)
    → CaptureInOrder start stop top ops
    → CaptureBalanced start stop top ops
CaptureInOrder-Balanced start stop top ops o = elim (Bool-cases (eqb (count start ops) 1)) [
  | inl e ↦
      let (a, b, c, q) =
        index_split start stop ops (ground (arith, o.same)) (ground (arith, o.same))
          (ground (arith, o.start_first)) in
      inr (
        ground (arith, o.start_on_top, o.same),
        ground (arith, o.stop_on_top, o.same),
        ground arith,
        ground (arith, o.same),
        a,
        b,
        c,
        q,
      )
  | inr e ↦ inl (
    count-zero-In start ops (ground (arith, o.at_most_once)),
    count-zero-In stop ops (ground (arith, o.same, o.at_most_once)),
  )
]

check_all_captures-Balanced :
    (top ops : List String)
    → check_all_captures top ops ≡ ok tt
    → CaptureBalanced "start_log_capture" "stop_log_capture" top ops
      × CaptureBalanced "start_request_capture" "stop_request_capture" top ops
      × CaptureBalanced "start_console_capture" "stop_console_capture" top ops
      × CaptureBalanced "start_download_capture" "stop_download_capture" top ops
unfolding check_all_captures
check_all_captures-Balanced top ops h = (
  balanced _ _ "private log capture lifecycle is invalid" (ground arith),
  balanced _ _ "private request capture lifecycle is invalid" (ground arith),
  balanced _ _ "private console capture lifecycle is invalid" (ground arith),
  balanced _ _ "private download capture lifecycle is invalid" (ground arith),
)
  where
    balanced :
        (start stop reason : String)
        → check_capture start stop reason top ops ≡ ok tt
        → CaptureBalanced start stop top ops
    balanced start stop reason k =
        CaptureInOrder-Balanced start stop top ops
          (check_capture-InOrder start stop reason top ops k)

module _ (r : Runtime) (fs : Fields) (v : Value) (flat : List Fields)
    (accepted : validate_program r (obj fs) ≡ ok v)
    (walk : iter_actions max_levels (actions_of fs) ≡ ok flat) where
  abbrev facts : Accepted r fs
  facts = (validate_program-Accepted r fs v accepted).0

  abbrev top : List String
  top = top_operations (get "actions" fs)

  order_of :
      (check_lifecycle top (operations flat) ≡ ok tt)
      × (check_all_captures top (operations flat) ≡ ok tt)
  order_of =
      rw (Accepted-flat facts flat walk)
        (check_order-lifecycle fs facts.flat facts.private facts.order_ok)

  -- An accepted program opens its target first and nowhere else, attaches the debugger once and detaches it
  -- once and later, counting what its branches do, and its own list ends in the detachment or in the
  -- detachment and the closing of the tab.
  pub validate_program-lifecycle :
      (count "open_or_focus_exact_url" (operations flat) ≡ 1)
      × ((rest : List String) × (top_operations (get "actions" fs)
            ≡ "open_or_focus_exact_url" ∷ rest))
      × ((a : List String) × (b : List String) × (c : List String) × (operations flat
            ≡ a ++ ("attach_debugger" ∷ (b ++ "detach_debugger" ∷ c))))
      × (count "attach_debugger" (operations flat) ≡ 1)
      × (count "detach_debugger" (operations flat) ≡ 1)
      × (EndsIn "detach_debugger" (top_operations (get "actions" fs))
          ⊎ ((start : List String) × (top_operations (get "actions" fs)
                ≡ start ++ "detach_debugger" ∷ "close_target_tab" ∷ [])))
  validate_program-lifecycle =
      let o = check_lifecycle-InOrder top (operations flat) order_of.0 in
      (
        o.open_once,
        first-split "open_or_focus_exact_url" top o.opens
            (λ q. ground (arith, eq_iff "open_or_focus_exact_url" "")),
        index_split "attach_debugger" "detach_debugger" (operations flat) o.attach_once
            o.detach_once o.attach_first,
        o.attach_once,
        o.detach_once,
        last_cases top o.ends o.close_last,
      )

  -- In an accepted program each of the log, request, console and download captures is absent, or is
  -- started once and stopped once later, both in the program's own list and not in its branches.
  pub validate_program-captures :
      CaptureBalanced "start_log_capture" "stop_log_capture"
        (top_operations (get "actions" fs))
        (operations flat)
      × CaptureBalanced "start_request_capture" "stop_request_capture"
          (top_operations (get "actions" fs))
          (operations flat)
      × CaptureBalanced "start_console_capture" "stop_console_capture"
          (top_operations (get "actions" fs))
          (operations flat)
      × CaptureBalanced "start_download_capture" "stop_download_capture"
          (top_operations (get "actions" fs))
          (operations flat)
  validate_program-captures = check_all_captures-Balanced top (operations flat) order_of.1
