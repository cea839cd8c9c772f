-- ===== src/Lib.antt =====
-- A verification library for mqttctl, a control plane for a Mosquitto broker.
--
-- The backend, mqttctl/mqttctl-api/src/lib, is a set of services over one database. Each request is
-- authenticated by `AuthService` (server/auth/service.ts), checked against the caller's role
-- (server/permissions/index.ts), carried out by a service such as `MqttExplorerService`
-- (server/mqtt/service.ts), `DynsecService` (server/dynsec/service.ts) or `SnapshotService`
-- (server/snapshots/service.ts), and recorded by `AuditService` (server/audit/service.ts) in a log
-- that `AppDatabase` (server/db/index.ts) chains by hashes. Requests of the MCP server carry a proof
-- that `McpAuthService` (server/auth/mcp.ts) checks.
--
-- Which file models what:
-- - Prelude: strings as UTF-16 units, lists, sorting, maps of JavaScript as association lists
--   (Prelude/Dict), JSON values, integers.
-- - Audit: the rows, `appendAudit`, the write queue of `AuditService.record`, the check
--   `verifyAuditIntegrity` and the backfill of the database's `initialize`; Audit/Export has the pages
--   and exports, Audit/Redaction `redactAuditSecrets`. SHA-256, `JSON.parse` and the order that the
--   database sorts by are parameters (`Engine`).
-- - Explorer: the sessions of the MQTT explorer as objects in a store, since operations under way
--   hold on to an object after the map of sessions has let go of it. Explorer/Topic has the filters,
--   Explorer/Trim the limit on tracked topics, Explorer/Messages the event of a message,
--   Explorer/Operations connecting and the events of a client, cut where the code waits,
--   Explorer/Requests the other methods, cut likewise, Explorer/Watch the live channels,
--   Explorer/Steps all of these as events in any order. What the MQTT client answers is an
--   argument; the wait for the client of a failed attempt to end is taken together with what
--   follows it.
-- - Permissions: roles and capabilities.
-- - Auth: the tables of users, sessions and requests; Auth/Accounts the account methods and the
--   bootstrap, Auth/Login local logins and cookies, Auth/External the linking of OIDC and header
--   accounts. Argon2, the HMAC, `toLowerCase`, `Buffer.from`, drawn tokens, salts and times are
--   arguments. One call of a method is one step.
-- - Dynsec: the broker's clients, groups, roles and ACLs. Dynsec/Parse and Dynsec/State read its JSON,
--   Dynsec/Acls has the effective ACLs, Dynsec/Credentials what is shown of credentials. Dynsec/Task
--   has the methods as actions that change the service and may throw, with the commands they send;
--   Dynsec/Operations, Dynsec/Clients, Dynsec/Bootstrap, Dynsec/Startup and Dynsec/Effective are the
--   methods. The broker's answers and its state are functions of what was sent to it before (`Env`),
--   so that theorems hold for whatever it answers. `Number`, `String` of numbers, `localeCompare` and
--   `toLowerCase` are parameters; a priority is a whole number, and the clock stands still while a
--   method runs.
-- - Snapshots: the exports and their table (server/snapshots/service.ts); Snapshots/Written has the
--   values as JSON, Snapshots/Import the reading of an export and what an import does. The answers of
--   the other services, `JSON.stringify` and `JSON.parse` are arguments, an exception of a service is
--   one error.
-- - Mcp: how `McpAuthService` (server/auth/mcp.ts) authenticates a request by a signed proof, with its
--   cache against replays; Mcp/Requests has `authenticateRequest`. `JSON.parse` of a base64url part,
--   the check of a signature, the digest and `toUpperCase` are parameters; times are whole seconds.
-- Each of these has its tests and examples in a module Examples.
--
-- Loops are structural recursion; the trimming loop runs on as much fuel as there are messages, each
-- of its rounds drops one, and the limit is reached before the fuel is used up.
--
-- Not modelled: the arguments of the broker's connection, the settings of MCP access, configuration,
-- the client of the broker agent, the OIDC exchange, logging, the HTTP layer and the frontend, the
-- broker agent and the MCP server.
mod Prelude
pub mod Audit
pub mod Auth
pub mod Dynsec
pub mod Explorer
pub mod Mcp
pub mod Permissions
pub mod Snapshots
