-- ===== src/Lib.antt =====
-- Heimdall runs AI agents for tenants and governs what they do: which connector tools they may call,
-- who has to approve a call, and what leaves through chat channels. This library models the parts of
-- the Go server, and of the agent in the VM, that decide this, over tables held as lists of rows. Paths
-- are from the root of the repository.
--
-- Base holds what is shared: native numbers, lists, texts as Go's strings package trims them, the
-- value-or-error of Go (Base/Result), Go maps (Base/Map), SQL over lists of rows (Base/Table), and the
-- database session (Base/Session). A session carries the tables, the time of now(), and for each
-- coming statement whether it fails, so what is said of every session is said of every pattern of
-- failures.
--
-- Database: the rows of the shared tables, and Database/Tenant the tenant context and transactions of
--   internal/platform/database/tenant.go (WithTenantConnection, WithTenantTransaction).
-- Policies: internal/policies/policies.go, which decision a risk class gets.
-- Connectors: internal/connectors. Tools and their check (tools.go) and the decision on a governed
--   write (governance.go); Connectors/Actions the store of governed actions (actions.go), a state
--   machine from pending over awaiting_approval to approved, denied, executed or failed.
-- Approvals: internal/approvals/approvals.go. Requests and their resolution, which also releases or
--   kills a held outbound job; Approvals/ConnectorActions the creation of an action together with its
--   request, and the way back from the request to the action (extractActionID of
--   internal/proxy/connector_action_resumer.go).
-- Channels: internal/channels. Channels/Outbox the outbound jobs in store.go (EnqueueOutbound,
--   ClaimPendingOutbox, RecoverStaleSending, RequeueOutboxDead and the Mark operations),
--   Channels/Durations the durations and floats of a retry, Channels/Delivery the failures of a sender,
--   the reports of a scan and the set-up, and
--   Channels/Dispatcher the run that scans, sends, retries and buries them (outbox_dispatcher.go,
--   outbox_errors.go, outbound_scan.go). Channels/Ingress the guard on incoming messages (ingress.go)
--   with its links and idempotency rows (store.go), over tables of its own, and the verifiers of the
--   providers (verifier_slack.go, verifier_whatsapp.go, verifier_telegram.go).
-- Auth: internal/auth/refresh_store.go, families of refresh tokens that rotate and are revoked.
-- Rbac: internal/rbac, roles and resource policies (evaluator.go) and the middleware (middleware.go).
-- Orchestrator: internal/orchestrator/runtime_policy.go, which secures the configuration of an agent;
--   Orchestrator/AgentConnectors the connectors and governed tools it is sent (handler.go).
-- Proxy: internal/proxy. Proxy/Protocol frames and their bytes (protocol.go, recvFrame of conn.go),
--   Proxy/Connection the requests in flight on a connection (conn.go), Proxy/Pool the connections kept
--   per agent (pool.go) and the push of a configuration (push.go); Proxy/Resolver what becomes of a
--   governed action when its request is answered (connector_action_resumer.go).
-- Agent: cmd/heimdall-agent, the process in the VM. Agent holds the configuration, the validation of
--   tool calls (validator.go), the canaries (canary.go) and the choice of a connector; Agent/Mcp the
--   calls of tool servers (mcp.go), Agent/Run the tool calls of one reply and Agent/Loop the rounds of a
--   prompt, resumed actions and configuration updates (openclaw.go, security.go, agent.go).
--
-- The parts meet at the tables: an action waits under the id of a request, a request holds an outbox
-- row, the dispatcher takes rows that are pending. An approval moves a held row to pending, where the
-- next claim finds it. An action whose request is answered goes over a connection of Proxy to the agent
-- and comes back executed or failed. The decisions of Policies and Connectors reach the agent with its
-- connectors, and Agent keeps to them.
--
-- UUIDs, times and durations are natural numbers, the nil UUID and the zero time 0; a configured count or
-- duration that Go would take as negative is 0, while the delay computed for a retry may be negative. What
-- is not in this repository is a parameter: how a UUID is written and read, JSON validity, the sender and
-- the scanner of the dispatcher, its review sink, the rounding of floats and their conversion beyond
-- 2 ^ 63, the store of resource policies, the lowering of a text, JSON as a codec of frames and as parsers
-- of payloads, whether a connection takes a frame, and what networks, models and tool servers answer.
--
-- The goroutines of a connection are steps that may come in any order. A dispatch is one step, as if no
-- Close came between its lookup and its send, and a request stream is a number, as the map and its
-- reader share it.
--
-- The loop of the dispatcher that claims until nothing is due runs on fuel, and what is said of a run is
-- said for any fuel: where a delay overflows, its job is due again at once, and the loop of the source
-- need not end before the attempts of its jobs do. The wait for an acknowledgement reads at most as many
-- frames as its fuel says; one more than those with other IDs are enough. All other loops are structural
-- recursion.
--
-- Not modelled: rows that another connection has locked, list queries, HTTP handlers, deadlines and
-- cancellation, a configuration that changes during a run of the agent, the provisioning of machines and
-- their drivers, the sockets and child process of the agent, the sentinel, audit and activity logs (but
-- for the kinds of event of the dispatcher), the regular expressions of the outbound scanner, the
-- dashboard.
pub mod Base
pub mod Database
pub mod Policies
pub mod Connectors
pub mod Approvals
pub mod Channels
pub mod Auth
pub mod Rbac
pub mod Orchestrator
pub mod Proxy
pub mod Agent
