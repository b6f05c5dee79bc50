-- ===== src/Lib.antt =====
-- swarmlite: a small container orchestrator. A controller keeps the state of the cluster, decides
-- on which node each task runs, rolls services over to new revisions, starts scheduled jobs, and
-- serves a key-value store with locks to the gateways; an agent on each node does what it is told.
--
-- The parts, and the files that model them:
--
--  Base      the helpers that the parts share: lists with Boolean tests, the text methods of the
--            standard library (texts are lists of characters), ordered maps with text keys for
--            `BTreeMap` and for SQLite tables, sorting and counting.
--  Cluster   the data model, crates/swarmlite-core/src/model.rs and service_operations.rs and
--            crates/swarmlite-stack/src/lib.rs: records for the structs, data types for the enums,
--            with the source's field and variant names.
--  Scheduler crates/swarmlite-controller/src/scheduler.rs. Constraints, Ports and Placement are
--            `matches_constraints`, `used_ports`, `allocate_ports` and `schedule_task`; Rollout is
--            `reconcile_service` and the functions that retire tasks; Drain is `finish_drains`;
--            Reconcile is `reconcile`, the pass over the cluster, which calls the others and Jobs.
--  Gateway   PortKey is `ServicePortKey` of crates/swarmlite-core/src/model.rs with its text form;
--            Routes is `stack_fragment`, `replace_stack_route` and `refresh_ready_stack_routes` of
--            crates/swarmlite-core/src/gateway.rs.
--  Operations  crates/swarmlite-controller/src/controller/service_operations.rs: Submit is
--            `submit_service_operation`, with the digest of the request and the new id given; Advance
--            is `advance_service_operations_locked`, and Operations its case of a rolling restart;
--            Tokens is the expiry of deploy tokens in crates/swarmlite-core/src/service_operations.rs.
--  Deployment  crates/swarmlite-controller/src/controller/deployment.rs: Conditions, Ready (when a
--            deployment is healthy), Refresh, Report (what a node says of a task), Images and Resolved
--            (what it says of an image); Moved and Steps put these functions together.
--  Apply     the same file, how a deployment starts: Plan is `service_update_plan`, Services the loop
--            over the services, History the deployments before, Guards the refusals (with
--            `validate_gateway_hostname_ownership` of controller/stacks.rs), Start the whole of
--            `apply_guarded` up to its commit, Retry `retry_stack_deployment`.
--  Jobs      crates/swarmlite-controller/src/jobs.rs: `skip_missed`, and `reconcile`, here
--            `reconcile_jobs`, which places an occurrence with `schedule_task`.
--  Recovery  crates/swarmlite-controller/src/controller/recovery.rs: `adopt_unclaimed_tasks`,
--            `restore_unclaimed_service_revisions` and `recovery_status`, after a controller restart.
--  Kv        crates/swarmlite-controller/src/kv.rs and controller/kv_store.rs: Keys is the syntax of
--            keys and the range query, Store the objects, Objects their handlers, Locks the leases
--            with fencing tokens and their handlers.
--
-- A function that changes the `ClusterState` takes it and returns the new one, beside the source's
-- answer whether something changed. A phase of a long function is a function of its own, named for
-- what it does, and the whole composes them in the order of the source.
--
-- Parameters: `new_v4` is the generator of task ids (package uuid), a function of the state, with
-- `Fresh` for ids that no task has. `occurrence` is the search for the next time of a cron
-- expression in a time zone (packages croner, chrono and chrono-tz), with `IsAfter` for times after
-- the given one. `encode` and `decode` are the base64 engine's.
-- `service_spec_hash` is the hash of a specification (packages serde_json and sha2). The clock of a
-- call is an argument.
--
-- Bounds: numbers are natural numbers. Times are milliseconds since 1970, which are not negative;
-- sums that the source saturates or checks at 2 ^ 63 are written so. Sizes, counts, slots and ports
-- are far below the limits of their types and are not wrapped. A port is printed with at most
-- five digits, enough below 2 ^ 16, and a slot with at most ten, enough below 2 ^ 32; no other
-- definition has fuel: every loop runs over a list or over a count that is known before.
--
-- Not modelled: the metrics of a node, which hold floating-point numbers; the HTTP and RPC layers;
-- the storage as JSON in SQLite; the agent and the container runtime; the registry cache and proxy;
-- the Compose parser; queries about deployments; heartbeats; how a prepared redeployment starts its
-- deployment; the command line and the web interface. SQLite is taken at its word for upserts,
-- conditions on text and transactions; keys hold no NUL character.
pub mod Base
pub mod Cluster
pub mod Operations
pub mod Recovery
pub mod Deployment
pub mod Apply
pub mod Scheduler
pub mod Gateway
pub mod Jobs
pub mod Kv
