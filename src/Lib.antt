-- ===== src/Lib.antt =====
-- The local side of the browser executor: the server and the controller that give an agent its browser
-- tools, the client, the native host that Chrome starts, and the validator of the browser programs that
-- pass between them.
--
-- The parts and how they interact. The MCP server (browser_executor/mcp_server.py) reads requests line by
-- line and calls a method of the controller (browser_executor/collaboration.py), which compiles a fixed
-- program for one shared tab, hands it to the client and makes a value of the result. Any caller hands a
-- program to the client (browser_executor/client.py), which validates it, chooses a connector socket,
-- sends the job and answers its mutation boundary. The native host
-- (browser_executor/native_messaging.py) relays one job at a time between the agent's socket and the
-- extension, and keeps the workspace of clicked tabs that the extension reports. Adapters go through a
-- driver session (browser_executor/driver.py), and local files through a policy
-- (browser_executor/policy.py).
--
-- Which file models which part:
-- - Prelude, Sets, Picked, Result, Text, Json: tests on numbers, texts as sets, exceptions as
--   values, the regular expressions as matchers on code points, and the values of json.loads.
-- - Runtime: what is called and not implemented in the repository (json.dumps, sha256, urlsplit,
--   str.lower, str, re.compile) as a record of functions that the definitions take.
-- - Protocol: browser_executor/protocol.py. Names has the constants; Checks, Actions, Target, Locator,
--   Guards, Interaction, Extraction, Action, Order and Program have `validate_program` and its parts,
--   under the names of the source without the leading underscore; a long function is cut into stages.
--   The other modules of the folder hold proofs.
-- - Grants: `_validate_collaboration` and `_validate_collaboration_update` of native_messaging.py and
--   `_validate_collaboration` and `_validate_collaboration_workspace` of client.py, which differ in
--   their exceptions and in the message type only.
-- - Native: Frames has the length-prefixed messages, Messages what the relay answers, Agent one
--   connection of `_handle_agent`, Relay the state of `NativeRelay` with a step for each event: an agent
--   connects, a chunk is received, the extension sends a message, the input ends.
-- - Client: Outcome has the checks of private values and results, Job the loop of `run`, Connectors the
--   choice among connectors and grants, Call `run` itself. What the sockets deliver is an argument.
-- - Collaboration: `BrowserCollaborationController`. Locator has `_validate_locator`; Tool the shape of a
--   method, an action over the recording that also lists its jobs for the client; Compile `_target`,
--   `_program` and the helpers that call no client; Calls `_record` and the call of the client; Pages,
--   Reading, Acting and Recordings the methods, `open`, `close` and `select` as open_url, close_tab and
--   select_option; Schedules the schedules, with a step for each holding of the lock. Runs, Bound,
--   Bounded and the modules in Locator and in Schedules hold proofs.
-- - Mcp: Tools has the tools of `_tool_result` as tables, Server `dispatch` and `run`, among whose inputs are
--   the timers and the threads of `execute`; what the client and the files answer may differ at each input,
--   and the arguments of a thread are any. Serves, Answers, Calls and Sessions hold proofs.
--   What json.loads reads from a line, json.dumps and the schema data of tools/list are arguments.
-- - Policy, Driver, Storage: `LocalBrowserPolicy`, `ProviderDriverSession`, and the socket checks of
--   browser_executor/storage.py.
-- - Tests: two programs, a workspace, files, requests and schedules at which the theorems are applied.
--
-- Conventions. A reason of an exception is the fixed part of its message, without the path that an
-- f-string puts before it. An object is an association list; a key that stands twice shows its first
-- entry. A length in bytes is the length of the text in UTF-8.
--
-- Levels. `iter_actions` takes five levels, the depths 0 to 4 that the source admits, and `validate_locator`
-- three, the depths 0 to 2; running out of them is the source's own exception. The shape check of a
-- locator has no bound in the source; it runs behind `validate_locator` with the same levels, which is
-- enough. The loop that makes room for a schedule has fuel for one round more than there are schedules,
-- which is enough, and the wait for a new grant makes the twenty attempts of the source. All other loops
-- are recursion on a list.
--
-- Not modelled: lone surrogates (UnicodeEncodeError), RecursionError, a policy file that is not UTF-8, the
-- clock of the client (a deadline that passes is the end of the arrivals), sockets and threads as such, the
-- byte order of a big-endian machine, the creation of files and sockets, the installation of the native
-- host, the start time of a recording (nothing reads it), the schemas of the tools (data that clients read
-- and the server does not check), the interleaving inside one call of a tool or one snapshot of a thread (each
-- takes effect at once), the lines that the client reads and writes with their limit of size, the command line
-- and the extension.
pub mod Prelude
pub mod Sets
pub mod Picked
pub mod Result
pub mod Text
pub mod Json
pub mod Runtime
pub mod Protocol
pub mod Grants
pub mod Native
pub mod Client
pub mod Policy
pub mod Driver
pub mod Storage
pub mod Collaboration
pub mod Mcp
pub mod Tests
