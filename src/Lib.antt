-- ===== src/Lib.antt =====
-- deploy-mcp deploys a versioned artifact to a remote host: a request is checked against a declarative
-- configuration, reserved in a SQLite database, and run step by step over a remote-execution
-- mechanism. This library models that path, and the recovery and the retention beside it; what is proved
-- of it is listed at the end.
--
-- Parts, and the files that model them:
-- - Domain (`src/domain/deployment.rs`, `src/domain/plan.rs`): Domain/Release holds identifiers,
--   artifacts and release identities, Domain/State the state machine, Domain/Deployment the deployment
--   and its `transition` and `fail`, Domain/Plan the plan and its rollback boundary.
--   Domain/Rollback and Domain/Recovery (`src/domain/rollback.rs`, `src/domain/recovery.rs`) hold
--   rollback references with the fingerprint of their contract, rollback operations, recovery
--   incidents and acknowledgements.
-- - Error and Config (`src/error.rs`, `src/config.rs`): error codes, the lookup of an environment, and in
--   Config/Validate the validation of a loaded configuration.
-- - Ports (`src/ports.rs`): the repository trait as a record of functions over the repository's own
--   state. Ports/Contract and Ports/Rollback/Contract state what a service relies on of it, and
--   Persistence/Rollback/Contract fills the second for SQLite.
-- - Application (`src/application`): Exec is the program of a service, a state with errors and panics;
--   Lock the leases of `lock.rs`; Artifact the allow-list of `artifact_access.rs` and `load_artifact`;
--   Mechanism the trait of `mechanism.rs`, with the preflight of `preflight.rs` and the JAR mechanism
--   below it; Rollback, Recovery and Retention the services of `rollback.rs`, `recovery.rs` and
--   `retention.rs`; Deploy the service of `deploy.rs`: Failure, Attempt
--   (recorded attempts and transitions), Run (the steps, verification and rollback of a reserved
--   deployment) and Request (`deploy` itself).
-- - Persistence (`src/persistence.rs`, `migrations`): the database as lists of rows, and one
--   function for each method of the SQLite repository, with its transaction. Persistence/Stored says
--   which state a database holds for a deployment, and Persistence/Deployments/Contract builds the
--   contract of the port for this repository. Persistence/Exclusive is the invariant of the unique
--   index on active deployments, and Persistence/Deployments/History the sequences of calls.
--   Persistence/Recovery and Persistence/Rollback (`src/recovery_persistence.rs`,
--   `src/rollback_persistence.rs`) are the other repositories, over the same database.
--   Persistence/Guarded is the invariant of all indexes and triggers together: its History has the
--   calls of every repository, its Blocked what an unresolved incident refuses.
-- - Text: the functions on strings that the checks use. Scenarios: concrete data and runs.
--
-- How the code is read: a `?` is a bind; `&mut self` is a state that is returned; an `await` under a
-- timeout gives its result or `elapsed`; a panic is a result of its own. The calls of the mechanism are
-- kept with the states of the repository and of the remote side when they were made, the latest first;
-- Application/Deploy/Attempt/Trace says which of them worked and what the store held then, and
-- Application/Deploy/Run/Ending how a run can end. The retry loop is recursion on the attempts that are
-- left, so no fuel is needed. Numbers are native naturals, with `u64::saturating_add` and
-- `i64::try_from` written out. A message is its format string with its arguments; where it ends in the
-- text of an error of the rollback or recovery domain, of a decoder or of the file system, that text is
-- left out, and its place is written `{error}`. The Rust `trim` is modelled by the code points that are
-- white space.
--
-- Parameters: the mechanism and its remote side, the file system, SHA-256, UTF-8, the UUID, the JSON
-- codecs of release identities and of rollback snapshots, the rules of paths, the clock, and storage
-- errors, which may fail any call of the database. SQLite is read by its documentation: a transaction is all or nothing, primary keys and unique indexes are
-- enforced.
--
-- Not modelled: `list` of the repository, a query of the API; the opening of a database file and its
-- migrations; the decoding of the configuration's YAML; the audit history and the API over it; the MCP
-- server, the process adapters and the binaries, which are input and output. The delay between
-- verification attempts changes no state and is left out. The errors "lock poisoned" of the services
-- (`application/deploy.rs`, `application/rollback.rs`, `application/api.rs`) are left out: a mutex is
-- poisoned by a panic while it is held, and the operations of a repository do not panic in this model.
pub mod Prelude
pub mod Text
pub mod Domain
pub mod Error
pub mod Config
pub mod Ports
pub mod Application
pub mod Persistence
pub mod Scenarios
