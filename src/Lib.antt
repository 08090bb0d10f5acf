-- ===== src/Lib.antt =====
-- The control plane of Barq: who may do what (API keys and tenants), the database that holds the
-- control plane's own state, webhooks, which turn the data plane's change events into HTTP
-- deliveries, sync rules, whose revisions Core applies and the control database records, and the
-- HTTP API, which lets requests do these things and read and write the data plane's objects.
--
-- The parts and their files:
--   Base       shared helpers: results as values, texts, decimals, sorting, lists
--   Control    internal/control: records with versions, and transactions over them. Control/Checks has
--              the loop of Apply in barq.go, Control/Store the table that the interface Store of
--              store.go promises: get, list, apply, put, delete. Control/Barq is BarqStore of barq.go,
--              over a parameter Database for the embedded database. Control/Migrations has
--              migrations.go.
--   Auth       internal/auth/manager.go and auth.go: Tenants, Keys, KeyChanges (CreateKey, UpdateKey,
--              RevokeKey, RotateKey), Access (FindByDigest, Middleware, Authorize...),
--              Bootstrap (Bootstrap, ensureBootstrapTenants, parseBootstrapKey)
--   DataPlane  the types of internal/model/types.go and internal/dataplane/types.go, in
--              DataPlane/Objects those of reads, writes, queries, batches and schemas;
--              DataPlane/Canonical is canonical.go: CanonicalJSON, writeCanonical and ETag
--   Webhooks   internal/webhooks: Service (service.go), Normalize (its helpers), Deliver (one
--              attempt), Queue (DeliverDue, Replay, OperationalHealth), Dispatch (PollOnce)
--   SyncRules  internal/syncrules/service.go: Keys (scopeKey, revisionKey, the comparisons), Finish
--              (reconcile, finishApply, writeHead), Service (Schema, Current, Plan, Apply, Test,
--              History, Restore), Reconcile (Reconcile), Histories (operations in any order)
--   Api        internal/api/server.go: Replies (writeJSON, writeError, decodeJSON), Tenants, Keys
--              (apiKeyCollection, apiKeyMember, authorizeKeyScope), Hooks, Rules (syncRuleRoutes,
--              readSchema), Objects (create, object, query, batch, schema, ready), Routes (dataRoutes
--              and Handler, with Middleware in front). Served goes through all handlers once, for
--              any relation between the states before and after a request; Safety uses it
--   Tests      concrete runs
--
-- How the code becomes definitions. State is the table of the control store, passed along: an
-- operation takes a Store and gives a result and the Store after it. Errors are values, Result,
-- with the codes of dataplane.Error; Progress is the count that a loop returns together with the
-- error that ended it. What the code calls and the repository does not hold is a parameter:
-- AuthEnv has JSON, the digest and the random source, HookEnv also URLs, addresses, HMAC and the
-- transform runtime, and DataPlane the two calls of the data plane that webhooks make; RulesEnv
-- has JSON for sync rules, and Core the calls of the data plane on them; ApiEnv puts these
-- together with the data plane's calls on objects (ObjectPlane), the bodies that encoding/json
-- decodes (Bodies), the routing of net/http (mux) and strconv.ParseUint. IsLawful, IsLawfulHooks
-- and IsLawfulRules say that encoded values are read back, IsDatabase that a transaction on the
-- embedded database makes its changes or none. Sync rules pass a World along, which is the
-- control store and the state of Core. A Go map is ranged over in any order: arrange is that
-- order in Bootstrap. The field fault of a Store is any error that its environment answers
-- instead, such as a cancelled context. Times are numbers of nanoseconds that the operations take
-- as arguments; while one event is dispatched the time is read once; where an operation reads it
-- more than once, clock gives each reading. Versions and revisions wrap at 2 ^ 64.
--
-- Loops recur on the list that they go over, and the attempts of newKey on their number, five; no
-- other fuel is needed but for decimals, where n + 1 steps are enough for n.
--
-- Not modelled: HTTP transport, the redirections of ServeMux, the console and documentation
-- pages, the inside of the embedded database, its opening and closing, the QuickJS runtime,
-- deployment and command-line code. Locks are not modelled either: operations run one after the
-- other.
pub mod Api
pub mod Auth
pub mod Base
pub mod Control
pub mod DataPlane
pub mod SyncRules
pub mod Tests
pub mod Webhooks
