-- ===== src/Runtime.antt =====
-- What the program calls and does not implement: json.dumps, hashlib.sha256, urllib.parse.urlsplit,
-- str.lower, str and re.compile, as one record of functions that the definitions take.
use llm_wiki_chrome.Prelude.{String, Bool, Option}
use llm_wiki_chrome.Json.{Value, str}

-- The parts of `urlsplit(raw)` that the program reads.
pub record Url : Type 0 where
  pub scheme : String
  pub netloc : String
  pub path : String
  pub query : String
  pub fragment : String
  pub hostname : Option String
  pub username : Option String
  pub password : Option String

pub record Runtime : Type 0 where
  -- json.dumps(value, sort_keys=True, separators=(",", ":"), ensure_ascii=False)
  pub dumps : Value → String
  -- hashlib.sha256(text.encode()).hexdigest()
  pub sha256 : String → String
  -- `none` is the ValueError of `urlsplit`
  pub urlsplit : String → Option Url
  pub lower : String → String
  -- str(value) of a value that is no text
  pub repr : Value → String
  -- `re.compile(pattern)` raises no `re.error`
  pub compiles : String → Bool

-- `str(value)`
abbrev pub to_str : Runtime → Value → String
to_str r (str s) = s
to_str r v = r.repr v
