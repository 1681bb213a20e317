-- ===== src/Lib.antt =====
-- A verification library for the webhook gateway: Trello deliveries are deduplicated, routed by
-- declarative rules, and handed to one worker per card.
--
-- How the parts interact. The server (internal/app/server.go) checks a request and its signature
-- and hands the body to the runner. `CopilotRunner.Handle` (internal/app/runner.go) drops a repeated action
-- id and passes the body to `Dispatcher.Dispatch` (internal/app/dispatcher.go). That reads an event
-- from the body, asks the route engine (internal/app/router) for a decision over the resolved board
-- (internal/app/kanban), and puts a message into the inbox of the card's worker. Prompts carry the
-- slimmed body (internal/app/slim.go). Card ids are checked by internal/app/cardid.go.
--
-- The files and the code they model:
--   Prelude        shared notation and lemmas: texts are lists of bytes, `bytes "..."` is a literal
--   Ring           internal/app/activity.go (appendEntry, entriesChronological), globallog.go
--   Payload        internal/app/message.go (asMap, asString), slim.go, runner.go (parseRawBody)
--   CardId         internal/app/cardid.go, activity.go (sanitizeForFilename)
--   Preview        internal/app/session_logger.go (preview)
--   Kanban         internal/app/kanban: Validate, Resolve, categories, prompt variables
--   Router         internal/app/router: engine.go, router.go, defaults.go, provider.go, rule.go
--   Dispatcher     internal/app/routing.go, dispatcher.go: Routing is evaluateRoute, System the
--                  state and the single operations, Steps the interleaved steps and their runs
--   Runner         internal/app/runner.go: markActionSeen and Handle
--   Activity       internal/app/activity.go: RecordEvent, the tracker's status, ring and log lines
--   Template       internal/app/prompttmpl/renderer.go: renderBytes, the substitution pass; Load is
--                  New and renderFile
--   LocalBoard     internal/app/localboard: the store, the webhook bodies and the card handlers
--   Trello         internal/app/trelloclient/client.go: Client, Comments and Webhooks; Tools is
--                  internal/app/trello_tools.go and CardInfo internal/app/cardinfo.go
--   Tunnel         internal/app/tunnel_startup.go: the start, its retries and the shutdown
--   Server         internal/app/server.go, verify.go and the handlers of tunnel_startup.go
--   GitHub         internal/app/router/funcs_github.go, card_classification.go
--   Tests          runs at concrete values
--
-- A struct is a record and an enum a data type, with the names of the source in lower case. A map is
-- an association list or a list of pairs. An error is a value of the module's own type. Loops over
-- slices are structural recursion; the loop of renderBytes, which skips ahead, has as many rounds
-- as the source has bytes, and each round takes at least one; the loop over comment pages has as
-- many rounds as the cap, and each round but the last adds a comment. The retries of a webhook have
-- no bound in the code: the rounds are an argument.
-- Numbers are unbounded natural numbers: the code's counters are bounded by the lengths of slices. Times are natural numbers.
--
-- The dispatcher is a system of steps: a state holds every handle ever made, the registry, and the
-- calls that are under way; an action names the goroutine that moves. A step is one critical section
-- of the mutex, one channel operation, or one part of the worker's loop; `none` is a step that the
-- state does not allow, so a run is one interleaving.
--
-- Parameters stand for code outside the repository: `to_lower` for strings.ToLower, `HclFuncs` for
-- the HCL function library, an HCL expression for its evaluation, `World` for the environment and
-- the files, `Sql` with `SqlLaws` for the SQL database, `Formats` for times as text, `Prompts` for
-- the embedded templates, `format_time` for the layout of a time, `Sdk`, `Decoder` and
-- `WebhookClient` with `WebhookLaws` for the Trello SDK and server, `Crypto` for HMAC and base64.
--
-- Not modelled: HTTP, JSON and HCL parsing, the Copilot SDK, the terminal interfaces, the tunnel's
-- process, work directories, logging.
pub mod Prelude
pub mod Ring
pub mod Payload
pub mod CardId
pub mod Preview
pub mod Kanban
pub mod Router
pub mod Dispatcher
pub mod Runner
pub mod Activity
pub mod Template
pub mod LocalBoard
pub mod Trello
pub mod Tunnel
pub mod Server
pub mod GitHub
pub mod Tests
