-- ===== src/Lib.antt =====
-- QueryFabric compiles queries of several dialects into plans for several backends, and carries the
-- services around them. This library models the parts of it that hold its own logic, each file
-- beside the code it is about.
--
-- Base holds what the parts share: Boolean tests over native numbers and strings, lists, association
-- lists in place of hash maps, signed integers, decimal numerals and the ASCII methods of text.
--
-- Syntax is crates/queryfabric-ir: the source spans of src/diagnostics.rs (Span), the logical types of
-- src/types.rs (Types, Common and Widening for the common type of two, Parameters), the syntax tree of
-- src/syntax.rs (Tree), the parsed query of src/bound.rs with the errors of src/error.rs (Parsed), and
-- the bound plan of src/bound.rs (Bound). Each tree is one mutual block; a vector or an option of a
-- type of the tree is a type of the block.
--
-- Budget is crates/queryfabric-ir/src/budget.rs. Measure has `measure_query` and the functions below it,
-- with a function for each loop; Totals is an independent reference without accumulators, Steps and
-- Agree compare the two, Check has `QueryBudget::check`.
--
-- Compiler is `QueryCompiler::parse` of crates/queryfabric/src/lib.rs: a dialect parses, the budget
-- checks. The dialect is an argument.
--
-- Catalog is crates/queryfabric-catalog: the schemas and the trait of src/model.rs (Model), a record of
-- the methods that the binder calls, src/builtins.rs (Builtins), the statistics in a schema's metadata
-- (Statistics), and the catalog in memory (Memory, Registered), which fills the record.
--
-- Binder is crates/queryfabric-catalog/src/bind. State has the binder's state, and a small monad for the
-- methods that change it; Scope, Suggest, Parameters, Finalize and Functions are the files of those
-- names (Finalize is of params.rs); Rules and Remedies have what is computed at one node, Walk the
-- methods that walk the tree, and Validate `bind_and_validate`. Supported is a predicate on bound plans;
-- Safe is a logic for steps of the binder that end without an error, Steps and Sound apply it to
-- every function of the walk. Agrees and Widened say what a chain of joins does to the scope and to the
-- nullability of its relations, and Checked, Bindings, Columns, Joins and Positions have the results.
--
-- Features is crates/queryfabric-catalog/src/features.rs over both trees (Syntactic, Bound), with the
-- requirements that src/bind/query.rs draws from it; Calls says independently which functions a plan
-- calls, and Called and Required compare.
--
-- Optimizer is crates/queryfabric-opt/src/syntax.rs. Transform is the tree walk at
-- `SelectionOverrideTransformer`, which `apply_selection_overrides` runs; Selections
-- lists the selects that the walk comes to, Identity, Compose and Replaced are the inductions over the
-- tree, and Overrides has the results; Conjuncts has `flatten_boolean_and` and `rebuild_boolean_and`.
--
-- JobQueue is crates/queryfabric-job-queue/src/priority.rs. Runner has `PriorityRunner` and its methods;
-- Pending has the order of the heap; Invariant has a step relation of all calls and what every
-- reachable state satisfies; Order and Cancel use it.
--
-- Cluster is crates/queryfabric-cluster. Of src/health_monitor.rs, Circuit has `CircuitState`, Breaker
-- its life over sequences of events, Cooldown when it skips a probe, Monitor the actor's messages, Sweep a sweep seen from one cluster
-- and Reset the reset of one. Of src/routing.rs, src/registry.rs and src/health.rs, Routing has the
-- maps and the choice of a cluster and an endpoint, Locality the partition of resources, and
-- Delegation what a sweep means for the endpoints.
--
-- Access is crates/queryfabric-access/src/decision.rs (Decision, and Tiers for what it grants) and the
-- ownership source in memory of crates/queryfabric-tenancy (Ownership, and Grants for what its changes do).
-- The source is a record of the trait's methods, which the state in memory fills.
--
-- Provenance is crates/queryfabric-provenance (Entry, Store, and History for the order of the log) and
-- crates/queryfabric-access/src/rights.rs (Rights over any store, Trail over the store in memory).
--
-- Runtime is crates/queryfabric-runtime/src/mode.rs (Mode), and Escalation compares its modes by rank.
--
-- Numbers are natural numbers; where the source has a counter of a fixed width that can wrap, the
-- wrap-around is written out, and the theorems say how far it may count. The walks recurse on the
-- tree, so none has fuel, but for the decimal numeral of a number, whose fuel is one more than the
-- number. Hash maps are association lists with one entry for a key, iterated in the order of
-- insertion; the ordered maps of the catalog keep the order of their keys, and the binder sorts its
-- constraints where the source iterates over them. The clock, the probes of the clusters, the cancellation tokens and the permits of the
-- semaphore are arguments or numbers of the state.
--
-- Left out are the text of logs, the dialect parsers, the cost estimates of the catalog, the
-- optimisation analysis and the backends, and everything that is input and output: servers, stores,
-- clients and bindings. The letters in lower case of the standard library are an argument of the
-- binder, and the receipts that hash with a third-party library are not in the results.
pub mod Base
pub mod Syntax
pub mod Budget
pub mod Catalog
pub mod Features
pub mod Binder
pub mod Compiler
pub mod Optimizer
pub mod JobQueue
pub mod Cluster
pub mod Access
pub mod Provenance
pub mod Runtime
