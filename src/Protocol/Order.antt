-- ===== src/Protocol/Order.antt =====
-- protocol.py: the checks of `validate_program` on the order of the operations: lifecycle, mutation
-- boundary, captures, and the private results that the actions extract.
use llm_wiki_chrome.Prelude.{
  ℕ, zero, suc, ◌+◌, String, Bool, true, false, not, ◌||◌, ◌&&◌, List, [], ◌∷◌, ◌==◌, leb, ltb, eqb,
  any, map, same_set, contains, count, index,
}
use llm_wiki_chrome.Result.{Result, protocol_error, raise_if, ◌>>◌}
use llm_wiki_chrome.Json.{Value, Fields, arr, obj, to_list, get, is_text}
use llm_wiki_chrome.Protocol.Names.{mutation_only}
use llm_wiki_chrome.Protocol.Guards.{text_of}

-- The fields of an object, none of another value.
abbrev pub fields_of : Value → Fields
fields_of (obj fs) = fs
fields_of _ = Fields.end

abbrev pub op_of : Fields → String
op_of action = text_of (get "op" action)

-- `[action["op"] for action in flat]`
unfoldable pub operations : List Fields → List String
operations [] = []
operations (action ∷ actions) = op_of action ∷ operations actions

-- `xs[n:]`
unfoldable pub drop : ℕ → List String → List String
drop zero xs = xs
drop (suc n) [] = []
drop (suc n) (x ∷ xs) = drop n xs

-- `xs[0]`, `xs[-1]` and `xs[-2]`, the empty text where there is none
unfoldable pub first : List String → String
first [] = ""
first (x ∷ xs) = x

unfoldable pub last : List String → String
last [] = ""
last (x ∷ []) = x
last (x ∷ y ∷ xs) = last (y ∷ xs)

unfoldable pub before_last : List String → String
before_last [] = ""
before_last (x ∷ []) = ""
before_last (x ∷ y ∷ []) = x
before_last (x ∷ y ∷ z ∷ xs) = before_last (y ∷ z ∷ xs)

unfoldable pub once : String → List String → Bool
once op ops = eqb (count op ops) 1

-- `top` holds the operations of the program's own list, `ops` those of its branches too.
unfoldable pub check_lifecycle : (top ops : List String) → Result (Unit {0})
check_lifecycle top ops =
    raise_if
      (not (first top == "open_or_focus_exact_url")
        || not (contains ("detach_debugger" ∷ "close_target_tab" ∷ []) (last top))
        || not (once "open_or_focus_exact_url" top)
        || not (once "attach_debugger" top)
        || not (once "detach_debugger" top)
        || not (once "open_or_focus_exact_url" ops)
        || not (once "attach_debugger" ops)
        || not (once "detach_debugger" ops)
        || leb (index "detach_debugger" ops) (index "attach_debugger" ops)
        || (last top == "close_target_tab" && not (before_last top == "detach_debugger")))
      (protocol_error "program lifecycle must open once, attach once, and detach last")

unfoldable pub check_boundary : (capability : Value) (top ops : List String) → Result (Unit {0})
check_boundary capability top ops = do
  raise_if
      (is_text "read" capability
        && (not (eqb (count "before_mutation" ops) 0) || any (contains mutation_only) ops))
      (protocol_error "read programs cannot contain mutation actions")
  raise_if
      (is_text "mutation" capability
        && (not (once "before_mutation" ops) || not (once "before_mutation" top)))
      (protocol_error "mutation programs require exactly one mutation boundary")
  raise_if
      (is_text "mutation" capability
        && contains (drop (index "before_mutation" top + 1) top) "first_success")
      (protocol_error "mutation recovery branches must precede the mutation boundary")

-- One of the four kinds of capture: started and stopped at most once, outside every branch, in order.
unfoldable pub check_capture :
    (start stop reason : String) (top ops : List String) → Result (Unit {0})
check_capture start stop reason top ops =
    raise_if
      (not (eqb (count start ops) (count stop ops))
        || ltb 1 (count start ops)
        || not (eqb (count start top) (count start ops))
        || not (eqb (count stop top) (count stop ops))
        || (eqb (count start ops) 1 && leb (index stop ops) (index start ops)))
      (protocol_error reason)

unfoldable pub check_all_captures : (top ops : List String) → Result (Unit {0})
check_all_captures top ops = do
  check_capture "start_log_capture" "stop_log_capture" "private log capture lifecycle is invalid"
      top ops
  check_capture "start_request_capture" "stop_request_capture"
      "private request capture lifecycle is invalid" top ops
  check_capture "start_console_capture" "stop_console_capture"
      "private console capture lifecycle is invalid" top ops
  check_capture "start_download_capture" "stop_download_capture"
      "private download capture lifecycle is invalid" top ops

abbrev pub extracting_operations : List String
extracting_operations =
    "extract_ax" ∷ "extract_ax_collection" ∷ "collect_ax_by_scrolling" ∷ "capture_viewport_private"
    ∷ "start_log_capture" ∷ "start_request_capture" ∷ "start_console_capture"
    ∷ "capture_region_private" ∷ "capture_full_page_private" ∷ "extract_ax_geometry"
    ∷ "capture_performance_private" ∷ "start_download_capture" ∷ []

-- `{action["private_result"] for action in flat if action["op"] in {...}}`, as a list
unfoldable pub extracted : List Fields → List String
extracted [] = []
extracted (action ∷ actions) =
    let rest = extracted actions in
    elim (contains extracting_operations (op_of action)) [
      | true ↦ text_of (get "private_result" action) ∷ rest
      | false ↦ rest
    ]

-- The operations of the program's own list of actions.
unfoldable pub top_operations : Value → List String
top_operations (arr vs) = operations (map fields_of (to_list vs))
top_operations _ = []

unfoldable pub check_order : Fields → List Fields → (private : List String) → Result (Unit {0})
check_order fs flat private = do
  let top = top_operations (get "actions" fs)
  let ops = operations flat
  check_lifecycle top ops
  check_boundary (get "capability" fs) top ops
  check_all_captures top ops
  raise_if (not (same_set (extracted flat) private))
      (protocol_error "private result declarations must exactly match extraction actions")
