-- ===== src/Lib.antt =====
-- Verification library of APM ProjectRunner, a local development topology orchestrator.
--
-- The program keeps a router beside each application instance. A router configuration
-- (crates/router-config) is validated as a whole, compiled into route tables and installed behind
-- a lock as the active snapshot (crates/router-core); data planes look consumers and browsers up
-- in the active snapshot. The planner, the daemon, the state store and the user interfaces produce
-- configurations, apply them to routers and record what happened.
--
-- Files.
-- - Base: shared names, Boolean tests with the equality interface `Eq`, lists, association lists
--   for `BTreeMap`, keys, texts with their UTF-8 bytes, JSON values, and bounded buffers (Ring).
-- - RouterConfig: crates/router-config/src/v1alpha1.rs. Model has the types, Net the host tests
--   with the parser of `IpAddr`, Identifier the identifier tests, Validate and its children
--   `RouterConfig::validate` with every error value, path and message. Resolve and Unique draw out
--   what an accepted configuration satisfies.
-- - RouterCore: crates/router-core/src/lib.rs. Compile has `compile`, Lookup the lookups and Engine
--   `RouteEngine`; Total, Tables, Resolution, Browser and History prove, Examples evaluates.
-- - State: crates/apmpr-state/src/lib.rs. Error has `StateError` and the failures of the database,
--   Locks the lease of a deployment with Exclusion and Holder, Operations the table of operations
--   with its History, Paging, Walk and Recovery, Apply `record_router_apply` with Serving, Reconcile
--   `reconcile_deployment` with Hashes and Sync, Context the test of JSON values for secrets with
--   Secrets, Registry the tables of sources, imported profiles and devices with Devices, Orderly,
--   Sources and Calls. Examples, TableExamples, RouterExamples and Context/Examples evaluate.
-- - RouterTcp: crates/router-tcp/src/lib.rs. Transparent has `forward_transparent`, with the network
--   as an argument, Choice proves which member it reaches, Examples evaluates.
-- - Planner: crates/apmpr-planner/src/lib.rs. Model has the fields of model.rs that the checks read,
--   Cycle the search for a dependency cycle with Walks, Sound, Clear, Ends and Check, Local
--   `validate_local_dependencies`, Expanded `validate_expanded_dependencies` with Targets, Accounts and
--   Nodes, Examples evaluates. Overlay has the layers of an instance's environment in
--   crates/apmpr-planner/src/overlay.rs with their traces; Cells, Layered, Steps and History
--   prove about them, Generated has the environment of a generated service, Dotenv `parse_dotenv`.
-- - RouterHost: crates/apmpr-router/src/lib.rs, the process around an engine. Process has the checks
--   of a configuration and the targets of TCP listeners, with `HttpDataPlane::new` and `readiness` of
--   crates/router-pingora/src/lib.rs, Observe the counters and the event log with Redaction and Log,
--   Control the state and the reload of the proxies, Report the bodies of answers, Execute
--   `validate_candidate` and `execute`, Admin the administration connection with Token, Framing and
--   Answers, Start `RouterProcess::start` with Running. Sync, Effect, Panic, Stopping and Serve prove
--   that the data plane stays in step with the engine, Examples evaluates.
-- - RouterAdmin: crates/apmpr-router-admin/src/lib.rs. Client has the types, the ownership labels of a
--   container and the decoding of a response, Exchange proves about them, with the answers of
--   RouterHost, Examples evaluates.
-- - Daemon: crates/apmpr-daemon/src/server.rs. Live has the records of attempts and the interface
--   `RouterAdmin`, Loop the loop of `apply_live_binding_with_admin` and `rollback_applied_targets`,
--   Binding their composition, Accounting with Report and Leaving prove. Events has the event log of
--   an operation, with Reading. Examples evaluates.
-- - RunActions: crates/apmpr-run-actions/src/lib.rs. The parent has the scripts and their validation,
--   Collection `validate_collection`, Store the file of scripts with `create`, `update` and `delete`
--   over a file system and a YAML library that are arguments; View, Kept, Sound and Answers prove.
--   Operation has `OperationSpec` and the process of a script. Examples evaluates.
--
-- Modelling. Identifiers and paths are texts, numbers are natural numbers without a bound where the
-- code does no arithmetic on them. A `BTreeMap` is a list of entries: those that the code builds
-- have one entry for each key by construction, those of a configuration are given in key order and
-- a theorem says so where it needs distinct keys. A loop that fills maps and pushes errors is a
-- recursion over the list with the maps as arguments, and returns its errors in order. An index of
-- a map by a missing key is an outcome `panic`. The serialiser and the hash behind a checksum, which
-- are taken to be total, and the decoder of JSON, are parameters, since they are no code of the
-- repository. Paths are compared as texts, where the code compares them by their components. A table
-- of the database is an association list by its primary key or the list of its rows, a call returns
-- the new table or an error and leaves the table then (`record_device_check`, whose last reading can
-- fail behind its statement, returns the tables beside its result), and what SQLite reports when a
-- statement fails is an argument of the call. File systems and the YAML library are interfaces with
-- their documented laws. The router process takes what sockets, probes, clocks and encoders
-- answer as arguments, anew for each connection; its applies are one after the other, as their lock
-- makes them. An emission of an event, in the router and in the daemon, is one step, and so is a round
-- of a reader of the daemon's log: the code takes the number of an event, or reads whether a log is
-- finished, under a lock of its own, and interleavings within these steps are not modelled. The daemon
-- reaches routers, the clock and the request to cancel through an interface over the state of the
-- world outside. The models of the code have no fuel but for the digits of a number, where the number
-- itself bounds its digits, and for the search for cycles, where one more than the number of services
-- is enough; the client of State/Operations/Walk has the number of its calls as fuel, and one more
-- than the rows is enough.
--
-- Not modelled: input and output of sockets, processes and files, terminal and web interfaces,
-- generated Compose documents, the selection of the targets of a live binding from bundles and
-- files, the writing of the plan that follows it, the injected files and the parameters of overlays,
-- the remaining checks of a bundle, the adapters, profiles, source checkouts and devices over SSH,
-- and migrations of the database.
pub mod Base
pub mod RouterConfig
pub mod RouterCore
pub mod State
pub mod RouterTcp
pub mod Planner
pub mod RouterHost
pub mod RouterAdmin
pub mod Daemon
pub mod RunActions
