-- ===== src/Lib.antt =====
-- mcp-broker: a broker between coding clients and MCP upstream servers.
--
-- A client asks the broker for tools and calls them by advertised names, `prefix` + separator +
-- `tool`. The broker core (src/mcp_broker/broker.py) takes the offer from the namespace router
-- (tool_namespace.py) under the client's profile (profiles.py) and the upstream settings
-- (config.py), finds the upstream of a call, checks the policy and calls the upstream, with the
-- upstream's lock held where its calls are serialised. The catalog (catalog.py) offers the same
-- tools through a few tools of the broker's own: search, describe, call with a projection of the
-- answer, and status; it hands calls to the core, with the project of the client's directory
-- (project_slug.py) where an upstream asks for it. The hybrid router (hybrid_router.py) sends
-- stateless calls to a shared worker under the shared-runtime policy (shared_runtime_policy.py,
-- session_affinity.py) and the quota policy (quota_policy.py). The shared deployment state
-- (distributed_state.py) keeps the active and the previous record of a shared runtime behind a
-- lock with a fencing token. The supervisor (upstream_process.py) owns one upstream's process.
-- An upstream's request for approval goes to the host over the relay (elicitation.py). Deployments
-- (deployments.py) keep which bundle is active and which one a rollback brings back, and a
-- break-glass record (break_glass.py) says that policies are bypassed until it expires.
--
-- Files, with paths from src/mcp_broker:
--   Prelude      numbers, texts, lists and dictionaries as Python has them; `Result` for code
--                that returns or raises
--   Value        the values of JSON and YAML documents
--   Upstream     config.py: `UpstreamConfig`, `BrokerSettings`, `is_off`, call timeouts; Environment
--                has `resolve_environment` and `resolve_request_meta`
--   Profile      profiles.py: `ToolExposureProfile` and its tests; Selection has the choice of a
--                profile for a session, Routing its proof
--   Config       config.py: `BrokerConfig.__post_init__` and the three validations it runs
--   Layers       config_layers.py: the validation of a layer; Secrets holds proofs
--   Identity     config_identity.py: `BrokerIdentityConfig`
--   Metadata     request_metadata.py: the metadata of a call (Defs), and the parameters of a
--                `tools/call` of upstream_stdio.py (Params); Forwarding and Precedence hold proofs
--   Namespace    tool_namespace.py: `ToolNamespaceRouter` (Defs) and the rewriting of tool
--                definitions (Definitions); Index, RoundTrip and Budget hold proofs
--   Core         broker.py: `BrokerCore`; Routes, Listing and Calls hold proofs
--   Slug         project_slug.py: the `project` argument from the client's directory; Given holds
--                proofs
--   Catalog      catalog.py: `BrokerCatalogFacade`. Requests has `call_tool` and the tools' arguments,
--                Facade `broker.call_tool`, Entries and Search the catalog, Trees and Projection the
--                pruning of responses, Status the status report; the others hold proofs
--   SharedPolicy shared_runtime_policy.py and session_affinity.py; Boundaries holds proofs
--   Quota        quota_policy.py: `decide_quota`
--   Hybrid       hybrid_router.py: `HybridToolRouter`; Routes and Answers hold proofs
--   Worker       shared_worker.py: `SharedWorkerRuntime`; Tools has its tools; Isolation
--                and Audit hold proofs
--   Elicitation  elicitation.py: `SocketElicitationRelay` (Defs) and the checks of modes and
--                replies (Checks); Lines and Replies hold proofs
--   SharedState  distributed_state.py: `DistributedStateStore` (Defs); Cell specifies what the store
--                promises; Refinement, Recovery, Fencing, Applying and Progress hold proofs
--   Deployments  deployments.py: `DeploymentStore` (Defs) and the names of deployments (Names);
--                Fitting, Crashes, Cleaning, Healing and Undo hold proofs
--   BreakGlass   break_glass.py: `BreakGlassStore` (Defs); Expiry holds proofs
--   Supervisor   upstream_process.py and watchdog.py: `UpstreamProcessSupervisor`
--   Tests        runs of the code on small inputs
--
-- How code becomes definitions. A method is a function of the object's state and the arguments;
-- an exception is the `err` of a `Result`, with one constructor for each place that raises. A
-- `dict` is a list of pairs in insertion order. What comes from outside is an argument: the
-- reply of an upstream to a call, the response of the shared worker, the clock, and what the
-- operating system answers to signals and waits, the variables and secret files of a process,
-- and for the catalog `json`, `str`, `str.lower` and `int` of values whose text the model does
-- not fix. `BrokerCore.call_tool` returns its events, the calls of the upstream and the lock's
-- acquire and release. The state store and the deployment store return their writes in order, so
-- that a stop between two writes is a prefix of them. Numbers are natural numbers, seconds and
-- percentages too: the code only adds, subtracts and compares them, and integer values of
-- documents have a sign of their own in `Value`.
--
-- Loops are recursions on the list they go through. `show` prints a number with one more unit of
-- fuel than the number, which is more than its digits. The waiting loop of the supervisor goes
-- through a given list of rounds, one for each answer of the ready check, and the reading loop of
-- the relay through one round for each `recv`; what `json.loads` makes of the bytes is an argument.
-- The walk up from the client's directory has the 64 rounds that the code has.
--
-- Left out: the daemon with its sockets and threads, the transports but for the parameters of a
-- call, the parsers of the configuration's sections, the merge of layers, rendering, governance,
-- the validation of bundles, the installed runtime and the command line. They are input and output
-- around the modelled parts, or parts of their own.
pub mod Prelude
pub mod Upstream
pub mod Profile
pub mod Value
pub mod Namespace
pub mod Core
pub mod Slug
pub mod Identity
pub mod Metadata
pub mod Catalog
pub mod Config
pub mod Layers
pub mod SharedPolicy
pub mod Quota
pub mod Worker
pub mod Hybrid
pub mod Elicitation
pub mod SharedState
pub mod Deployments
pub mod BreakGlass
pub mod Supervisor
mod Tests
