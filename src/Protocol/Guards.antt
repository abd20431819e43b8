-- ===== src/Protocol/Guards.antt =====
-- protocol.py: what the groups of checks of `_validate_action` share.
use llm_wiki_chrome.Prelude.{
  ℕ, String, Bool, false, not, List, [], ◌∷◌, ◌==◌, contains, if◌then◌else◌,
}
use llm_wiki_chrome.Result.{Result, protocol_error, raise_if, when, ◌>>=◌, ◌>>◌}
use llm_wiki_chrome.Json.{Value, Fields, str, get, int_within, member, bool}
use llm_wiki_chrome.Runtime.{Runtime}
use llm_wiki_chrome.Protocol.Locator.{validate_locator, locator_levels, validate_ax_locator_shape}

-- `if operation in {ops}:`
abbrev pub for_op : List String → String → Result (Unit {0}) → Result (Unit {0})
for_op ops op m = when (contains ops op) m

-- `type(action.get(key)) is not int or not lo <= action[key] <= hi`
abbrev pub need_int : String → ℕ → ℕ → Fields → String → Result (Unit {0})
need_int key lo hi action reason =
    raise_if (not (int_within lo hi (get key action))) (protocol_error reason)

-- `value not in names` raises TypeError for a list or an object
unfoldable pub need_member : Value → List String → String → Result (Unit {0})
need_member v names reason = do found ← member v names; raise_if (not found) (protocol_error reason)

unfoldable pub keys_of : List (String × List String) → String → List String
keys_of [] op = []
keys_of ((name, allowed) ∷ table) op = if name == op then allowed else keys_of table op

unfoldable pub text_of : Value → String
text_of (str s) = s
text_of _ = ""

abbrev pub is_false : Value → Bool
is_false (bool b) = not b
is_false _ = false

-- A locator of the action's field `key`, which must be one of the accessibility tree.
unfoldable pub ax_locator : Runtime → String → Fields → Result (Unit {0})
ax_locator r key action = do
  validate_locator r locator_levels (get key action)
  validate_ax_locator_shape locator_levels (get key action)
