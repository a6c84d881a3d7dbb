-- ===== src/Lib.antt =====
-- ProtoRadar, a registry of Protobuf modules with breaking-change governance.
--
-- The server stores modules and their versions, checks a change for breaking changes, asks the
-- owners of the changed module for approval, and tells other systems what happened through an
-- outbox table that a publisher drains. Services report which versions they run, and the imports
-- of a version give its dependencies. This library models the governance core, the runtime
-- inventory, the dependency graph, the guards in front of the handlers, their tables and the
-- outbox.
--
-- * Domain models internal/domain: the sentinel errors (Domain/Errors), the identifiers (Ids), the
--   names of modules, versions and runtime services (Names), the enumerations with their parsers
--   (Enums) and the records (Records). An error is a value of `Err`, a Go function that returns an
--   error is one into `Result`, a pointer is an `Option`, and a time is a number, 0 for the zero
--   time.
-- * Store models internal/repository/postgres: db.go (World), governance.go (Owners, Approvals,
--   AuditEvents) and the lookups of modules.go and breaking_reports.go (Modules), and
--   OutboxWriter.Create (OutboxWriter). Db holds the tables as lists of rows, with the constraints
--   of migrations/. Versions holds module_versions.go, Runtime and Runtime/Listings hold
--   runtime_inventory.go, Dependencies what dependency_graph.go writes. A use case is a function
--   of `World`: the database, the faults that its next calls meet, the random identifiers.
--   `within_transaction` restores the database on an error, a failed commit included; a commit that
--   the server carried out although its answer was lost is not modelled. Columns of times keep
--   microseconds; but for the token table, the times here are those that the columns keep. What
--   Postgres does with a uuid, and the text of a time in JSON, are the parameter `Platform`; its
--   law says that a printed uuid stands for itself. Triples holds the rules by which the theorems
--   on use cases are proved, one per way to build a function of the world, Triples/Lookups those
--   for lookups, Triples/Each for loops of inserts, Triples/Outbox for the events, and Quiet what
--   runs without faults answer.
-- * Audit models internal/audit, and Events the governance events and (Events/Runtime) the events
--   of the runtime inventory and of the dependencies in internal/integration/protoradarevents,
--   payloads included.
-- * Inventory models internal/usecase/runtimeinventory: the references of a report (References),
--   the drift of a version (Drift), a report (Report) and the queries (Queries). Resolving,
--   Services and Writes follow its steps, Resolved says what drift means, and Effects what a
--   report leaves.
-- * Graph models internal/usecase/dependencygraph/service.go and
--   internal/usecase/registry/dependencies.go on the metadata of Domain/Metadata: the index of
--   providers (Providers), the resolution of the references of a version (Resolving) and the
--   rebuild (Rebuild). Coverage reads the keys of dependencies. The variables that the closures of
--   `resolveDependencies` share are a state that is passed on. References lists the references of
--   the metadata and says what each should come to; Traversal carries a property of single
--   references over the loops, Progress, Additions and Steps give one such property, Completes
--   another. The repositories of descriptor metadata are the record `MetadataStore`, with the law
--   that reading changes nothing.
-- * Access models internal/identity, internal/authorization, the token table and the guards of
--   internal/transport/http/server.go: Identity, Authorization, Guards. The keyed hash of a token
--   is a parameter, a handler a function of the world. Times are in nanoseconds, and `stored_time`
--   cuts what the token table keeps to microseconds. Tokens is about the table, Admission and
--   Admits about requests as a whole.
-- * Governance models internal/usecase/governance: types.go (Types), policy.go (Policy), actor.go
--   (Actor), service.go (Owners) and approval_service.go (Approvals). Policy/Asked says whose
--   approval is asked for without the keys of Policy/Requirements. In Policy, the map `seen` of
--   `EvaluatePolicy` is a list of keys, and the set of production modules a list of names. In
--   Approvals, Prepare holds what `recordDecision` reads and checks, Commit its transaction and
--   the whole; Context and Create hold the creation of a request. Tally says what the status of a
--   request stands for, Consistency is the invariant of the approval tables, Decided and Writes
--   follow the statements of a decision, Announced the audit and outbox events, Loaded, Deciding
--   and Admitted the reads, Integrity the whole, Committed what commits write on the tables, and
--   Interleavings two decisions at once. For the creation of a request, Stored, Filled and
--   Inserted follow the insertion of its rows, Built the request made of an evaluation, Reads what
--   is read before, Created and Creation the whole, and CreationErrors its failures. The providers
--   of affected modules and runtime impact are interfaces there, and a parameter here.
-- * Outbox models internal/outbox and internal/repository/postgres/outbox.go. Table holds one
--   function per SQL statement on the list of rows, in the order of insertion, with the unique
--   constraints of migrations/000001_registry.up.sql and 000008_outbox_lifecycle.up.sql. Publisher
--   holds `PublishOnce` as a function of everything outside it: the clock, the context, the rows
--   that other transactions hold, the answers of the dispatcher and the faults of the database.
--   Durations are integers in nanoseconds. Columns of times keep microseconds: the times given to
--   the statements of Table are those that reach Postgres, so for a clock in nanoseconds a claim
--   within the last microsecond of a lease is not told apart. An error text is cut by bytes, as in
--   Go: a `Message` is a text with the bytes that remain of a cut character, which Postgres
--   refuses, as it does a NUL. The conversion of a float product to a duration is the parameter
--   `Float64`, exact where Go's is.
-- * Prelude holds Go's strings functions (Text), encoding/json (Json), Boolean tests on native
--   numbers (Tests), lists measured by native numbers (Lists), sorting (Sort), integers (Int) and
--   lists without repetitions (Keys).
--
-- Only the decimal digits of a number in JSON run on fuel, one more than the number, which is more
-- than its digits; the loops of the source run over lists.
--
-- Not modelled: the registry, GitLab and page use cases with their repositories (descriptor
-- metadata and breaking reports beyond the lookups used here), the handlers of the HTTP and web
-- transports, the edition, the command line client, configuration, and the adapters to buf, GitLab
-- and S3.
pub mod Prelude
pub mod Access
pub mod Audit
pub mod Domain
pub mod Events
pub mod Governance
pub mod Graph
pub mod Inventory
pub mod Outbox
pub mod Store
