-- ===== src/Mcp/Server.antt =====
-- mcp_server.py: `_tool_result`, `dispatch` and `run` of `McpServer`. A line of the input is the value that
-- json.loads reads from it, or none where the line is no JSON; what json.dumps gives is a parameter.
use llm_wiki_chrome.Prelude.{
  map, String, Bool, true, false, Option, none, some, List, [], ◌∷◌, ◌++◌, ◌==◌, contains,
  if◌then◌else◌,
}
use llm_wiki_chrome.Result.{Error, client_error, collaboration_error, Result, ok, err, ◌>>=◌}
use llm_wiki_chrome.Json.{
  ℤ, Value, Fields, null, bool, int, negsuc, str, obj, arr, nil, dict, array, get, is_null, is_text,
  member, end,
}
use llm_wiki_chrome.Protocol.Program.{get_or}
use llm_wiki_chrome.Collaboration.Tool.{Job, World}
use llm_wiki_chrome.Collaboration.Compile.{entry_of}
use llm_wiki_chrome.Collaboration.Schedules.{begin, finish}
use llm_wiki_chrome.Collaboration.Reading.{snapshot}
use llm_wiki_chrome.Mcp.Tools.{Controller, Reply, refused, call_tool}

abbrev pub mcp_protocol : String
mcp_protocol = "2025-06-18"

abbrev pub supported_mcp_protocols : List String
supported_mcp_protocols = mcp_protocol ∷ "2025-11-25" ∷ []

-- Other exceptions than these two show a fixed text.
abbrev pub collaboration_error_message : Error → String
collaboration_error_message (collaboration_error reason) = reason
collaboration_error_message (client_error reason) = reason
collaboration_error_message _ = "browser collaboration failed"

-- `_result`
abbrev pub rpc_result : (request_id result : Value) → Value
rpc_result request_id result =
    obj (dict (("jsonrpc", str "2.0") ∷ ("id", request_id) ∷ ("result", result) ∷ []))

-- `_error`; the code of `rpc_error id n message` is -(n + 1).
abbrev pub rpc_error : (request_id : Value) → (code : ℤ) → (message : String) → Value
rpc_error request_id code message = obj (
    dict (
      ("jsonrpc", str "2.0")
      ∷ ("id", request_id)
      ∷ ("error", obj (dict (("code", int code) ∷ ("message", str message) ∷ [])))
      ∷ []))

abbrev pub text_content : String → Value
text_content t = obj (dict (("type", str "text") ∷ ("text", str t) ∷ []))

abbrev pub failure : Error → Value
failure e = obj (
    dict (
      ("content", array (text_content (collaboration_error_message e) ∷ []))
      ∷ ("isError", bool true)
      ∷ []))

-- What a request does: its jobs, the controller behind it, and the response, where it has one.
pub record Served : Type 0 where
  pub jobs : List Job
  pub controller : Controller
  pub response : Option Value

abbrev pub silent : Controller → Served
silent c = record { jobs = []; controller = c; response = none }

abbrev pub answered : Controller → Value → Served
answered c v = record { jobs = []; controller = c; response = some v }

abbrev pub is_image : String → Bool
is_image name =
    contains
      ("browser_screenshot" ∷ "browser_region_screenshot" ∷ "browser_full_page_screenshot" ∷ [])
      name

abbrev pub rendered_result : Result Value → Value
rendered_result (ok v) = v
rendered_result (err e) = failure e

-- The protocol version that the server answers.
abbrev pub version_of : Value → Bool → Value
version_of requested true = requested
version_of requested false = str mcp_protocol

abbrev pub server_info : Value → Value
server_info version = obj (
    dict (
      ("protocolVersion", version)
      ∷ ("capabilities", obj (dict (("tools", obj (dict (("listChanged", bool false) ∷ []))) ∷ [])))
      ∷ (
        "serverInfo",
        obj (dict (("name", str "llm-wiki-browser-collaboration") ∷ ("version", str "0.1.0") ∷ [])),
      )
      ∷ []))

abbrev pub requested_version : Value → Value
requested_version (obj parameters) = get "protocolVersion" parameters
requested_version _ = null

-- A list or an object as the version cannot be hashed; the exception is an internal error.
abbrev pub initialized : (request_id requested : Value) → Result Bool → Value
initialized request_id requested (ok supported) =
    rpc_result request_id (server_info (version_of requested supported))
initialized request_id requested (err e) = rpc_error request_id (negsuc 32602) "Internal error"

module _ (world : World) (dumps ascii_dumps : Value → String) (tools : Value) where
  unfoldable pub image_result : Value → Result Value
  image_result value = do
    id ← entry_of "collaboration_id" value
    url ← entry_of "url" value
    encoded ← entry_of "data_base64" value
    mime ← entry_of "mime_type" value
    ok (
        obj (
          dict (
            (
              "content",
              array (
                  text_content (
                    ascii_dumps (
                      obj (
                        dict
                          (("status", str "ok") ∷ ("collaboration_id", id) ∷ ("url", url) ∷ []))))
                  ∷ obj (dict (("type", str "image") ∷ ("data", encoded) ∷ ("mimeType", mime) ∷ []))
                  ∷ []),
            )
            ∷ ("isError", bool false)
            ∷ [])))

  -- The content of an image, and of every other value.
  unfoldable pub rendered : String → Value → Result Value
  rendered name value =
      if is_image name
      then image_result value
      else ok (
          obj (
            dict (
              ("content", array (text_content (dumps value) ∷ []))
              ∷ ("structuredContent", value)
              ∷ ("isError", bool false)
              ∷ [])))

  unfoldable pub tool_result : (new_id name : String) → (arguments : Value) → Controller → Reply
  tool_result new_id name (obj arguments) c =
      let r = call_tool world new_id name arguments c in
      record { jobs = r.jobs; controller = r.controller; result = r.result >>= rendered name }
  tool_result new_id name _ c = refused world new_id c

  -- `tools/call`
  abbrev pub call_params :
      (new_id : String) → (request_id : Value) → Fields → Value → Controller → Served
  call_params new_id request_id parameters (str name) c =
      let r = tool_result new_id name (get_or "arguments" (obj end) parameters) c in
      record {
        jobs = r.jobs;
        controller = r.controller;
        response = some (rpc_result request_id (rendered_result r.result));
      }
  call_params new_id request_id parameters _ c =
      answered c (rpc_error request_id (negsuc 32601) "Invalid params")

  unfoldable pub call : (new_id : String) → (request_id parameters : Value) → Controller → Served
  call new_id request_id (obj parameters) c =
      call_params new_id request_id parameters (get "name" parameters) c
  call new_id request_id _ c = answered c (rpc_error request_id (negsuc 32601) "Invalid params")

  unfoldable pub by_method :
      (new_id method : String) → (request_id : Value) → Fields → Controller → Served
  by_method new_id method request_id fs c =
      if method == "initialize"
      then (let requested = requested_version (get_or "params" (obj end) fs) in
          answered c (initialized request_id requested (member requested supported_mcp_protocols)))
      else if method == "ping"
      then answered c (rpc_result request_id (obj end))
      else if method == "tools/list"
      then answered c (rpc_result request_id (obj (dict (("tools", tools) ∷ []))))
      else if method == "tools/call"
      then call new_id request_id (get "params" fs) c
      else if method == "resources/list"
      then answered c (rpc_result request_id (obj (dict (("resources", arr nil) ∷ []))))
      else if method == "prompts/list"
      then answered c (rpc_result request_id (obj (dict (("prompts", arr nil) ∷ []))))
      else answered c (rpc_error request_id (negsuc 32600) "Method not found")

  unfoldable pub dispatch_method : (new_id : String) → Value → Fields → Controller → Served
  dispatch_method new_id (str method) fs c =
      if is_null (get "id" fs) then silent c else by_method new_id method (get "id" fs) fs c
  dispatch_method new_id _ fs c =
      answered c (rpc_error (get "id" fs) (negsuc 32599) "Invalid Request")

  unfoldable pub dispatch : (new_id : String) → (request : Value) → Controller → Served
  dispatch new_id (obj fs) c =
      if is_text "2.0" (get "jsonrpc" fs)
      then dispatch_method new_id (get "method" fs) fs c
      else answered c (rpc_error null (negsuc 32599) "Invalid Request")
  dispatch new_id _ c = answered c (rpc_error null (negsuc 32599) "Invalid Request")

  -- One line.
  unfoldable pub serve_line : (new_id : String) → Option Value → Controller → Served
  serve_line new_id (some request) c = dispatch new_id request c
  serve_line new_id none c = answered c (rpc_error null (negsuc 32699) "Parse error")

-- What happens to the server, in the order in which it takes effect. A line comes in, with the id that
-- os.urandom gives to a new recording or schedule; the timer of a schedule fires; or the thread of a schedule
-- takes its snapshot, with the arguments that `execute` has closed over. `world` is what the client, the policy
-- and the files answer at that moment, and another one each time.
pub data Input : Type 0 where
  line : (world : World) → (new_id : String) → (request : Option Value) → Input
  timer : (schedule_id : String) → Input
  works : (world : World) → (schedule_id : String) → (collaboration_id max_items : Value) → Input

-- A job, and what the client knew when it was given.
pub record Sent : Type 0 where
  pub world : World
  pub job : Job

-- What the server has done at the end of the input: its jobs in order, and the lines that it wrote.
pub record Session : Type 0 where
  pub jobs : List Sent
  pub controller : Controller
  pub written : List Value

abbrev pub listed : Option Value → List Value
listed none = []
listed (some v) = v ∷ []

-- `execute` from the start of its timer to the snapshot.
abbrev pub started : String → Controller → Controller
started schedule_id c = record {
  recording = c.recording;
  scheduler = begin c.scheduler schedule_id;
}

-- The snapshot of `execute` and what comes of it; only a thread that has started works.
unfoldable pub thread_work :
    World → (schedule_id : String) → (collaboration_id max_items : Value) → Controller → Served
thread_work world schedule_id collaboration_id max_items c =
    let d = snapshot world collaboration_id max_items c.recording in
    if contains c.scheduler.threads schedule_id
    then record {
      jobs = d.jobs;
      controller = record {
        recording = d.recording;
        scheduler = finish c.scheduler schedule_id d.result;
      };
      response = none;
    }
    else silent c

abbrev pub sent_to : World → List Job → List Sent
sent_to world jobs = map (λ job. record { world = world; job = job }) jobs

abbrev pub served_first : List Sent → Served → Session → Session
served_first jobs s rest = record {
  jobs = jobs ++ rest.jobs;
  controller = rest.controller;
  written = listed s.response ++ rest.written;
}

module _ (dumps ascii_dumps : Value → String) (tools : Value) where
  unfoldable pub run : List Input → Controller → Session
  run [] c = record { jobs = []; controller = c; written = [] }
  run (line world new_id request ∷ inputs) c =
      let s = serve_line world dumps ascii_dumps tools new_id request c in
      served_first (sent_to world s.jobs) s (run inputs s.controller)
  run (timer schedule_id ∷ inputs) c = run inputs (started schedule_id c)
  run (works world schedule_id collaboration_id max_items ∷ inputs) c =
      let s = thread_work world schedule_id collaboration_id max_items c in
      served_first (sent_to world s.jobs) s (run inputs s.controller)
