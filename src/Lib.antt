-- ===== src/Lib.antt =====
-- Mystery Starter Kit: the production pipeline of a mystery programme, from the channel's contract to
-- the finished scripts. A project passes fourteen gates. Each gate wants artifacts, each artifact rests
-- on others, and a change of one makes all that rests on it DIRTY. The runtime plans the tasks of a range
-- of gates, sends each to a provider that may see its data, and commits the outputs of a gate together
-- with the new project state.
--
-- The files and the code that they model (paths from the root of the repository):
--   Failure       RUNTIME/errors.py, VALIDATORS/exceptions.py: exceptions as values
--   Json          the documents of VALIDATORS/io.py, and Python's == on them
--   Project       VALIDATORS/models.py: the state of a project and of its artifacts
--   Requirements  VALIDATORS/requirements.py, and parse_semantic_version of VALIDATORS/compatibility.py;
--                 Meaning has the conditions as Boolean formulas
--   Compatibility VALIDATORS/compatibility.py: Report has the types and the readers of fields,
--                 Negotiation evaluate_compatibility, Binding evaluate_channel_binding
--   Dependency    VALIDATORS/dependency.py: Graph reads and validates, Dependents reverses and
--                 propagates, Changes updates the project state; Paths says what resting on means
--   StateMachine  VALIDATORS/state_machine.py: the table of gates and advance_gate
--   Runtime       RUNTIME/models.py; Records has what a run keeps on disk, Store the files as
--                 VALIDATORS/io.py reads and writes them, Runs RUNTIME/event_store.py, Approvals
--                 RUNTIME/approvals.py
--   Planner       RUNTIME/planner.py, function by function
--   Router        RUNTIME/router.py, and the readers of RUNTIME/contracts.py that it calls
--   Transactions  RUNTIME/transactions.py: next_project_state (Next), and the hashes of the inputs
--                 that are taken before a provider runs and verified before the commit (Hashes);
--                 Disk has the files that a commit writes and the faults, Commit backs up, installs
--                 and rolls back, Recover is what the next start does, Targets lists what is
--                 written, GateCommit is commit_gate_transaction
--   Lock          RUNTIME/transactions.py: the lock of a project (Project), over the operations on its
--                 file (Machine)
--   Causal        VALIDATORS/causal_validation.py and two readers of VALIDATORS/continuity.py: Graph has
--                 the functions
--   Continuity    VALIDATORS/continuity.py: what characters know, and when (Knowledge),
--                 and where they are, and when (Timeline), over documents with floats (Document)
--                 and the floats of Python (Float)
--   Examples      small inputs, and each theorem at one of them
--   Common        shared tests, lists, sets of names and dictionaries
-- The planner and the transactions call the state machine, the state machine and the planner call the
-- conditions, and the transactions call the dependency graph.
--
-- A function of the source keeps its name; a loop or a comprehension inside it is a function of its own.
-- A call that may raise returns a Result. A Python set of names is a list that is read through
-- membership only. Objects are association lists in insertion order, with distinct keys where a theorem
-- says so; numbers in documents are integers, but in Continuity, where they are integers and binary64 floats
-- without NaN, and an integer is rounded to a float as Python does it. The texts and contexts of error messages are left out.
--
-- Bounds. The search of validate_dependency_graph has one level of fuel more than there are artifacts,
-- the worklist of transitive_dependents one round for each edge of the graph and each first entry, and
-- topological_task_ids one round for each task; graph_has_cycle has one level of fuel more than there
-- are nodes, and path_exists one round for each edge and each source; the theorems show that none of them runs out.
--
-- Files. A JSON file is whole or torn. A schedule says of each write whether it succeeds, fails before
-- the file is opened, in the middle, at the newline behind the document, or at the flush or the close, when
-- everything is on disk; an operation that raises keeps what it wrote until then. A log of events is its lines
-- and the text behind its last newline, which the next append makes part of its own line. Texts are UTF-8.
-- The clock, new identifiers and resolved paths are arguments.
--
-- The lock. Its file is an inode and a JSON document, or none that can be parsed. Before each operation on it
-- stands what other processes have done to it since the operation before: a function of the file, with no laws
-- but those that a theorem names. What os.kill answers for a process is a function, and no law is assumed of it;
-- one of its answers is the OverflowError of a number that is no PID of the system, which nothing catches.
-- A write of the document that returns has written all of it, and closing its descriptor does not fail.
--
-- Commits. The files of a project are a function from paths to contents. A schedule says of each
-- operation on them whether it succeeds, raises OSError, or the process stops there, before it or in the middle
-- of a write, and in the write of a record also when all of it is on disk; os.replace is all or nothing. What pathlib makes of a path is a record of functions with no laws.
-- A theorem on commits assumes of them that the targets, their backups and the temporary files beside
-- them are different paths, that the targets lie within the project and the backups within the
-- directory of the transaction, and that resolving them changes nothing. A record of a transaction has the type
-- that a commit writes.
--
-- Parameters. JSON text, UTF-8 and SHA-256 are Python's, a record of functions with no laws; whether a
-- document meets its JSON schema, and whether a text is blank, are Boolean functions with no laws. Loading the
-- task catalog, the channel and the artifacts is a result that build_execution_plan is given.
--
-- Not modelled: the command lines, the providers and prompts, the renderers, the execution engine and
-- the other validators of the story content, the staging overlay, and records of transactions that were edited by hand.
pub mod Common
pub mod Failure
pub mod Json
pub mod Project
pub mod Requirements
pub mod Compatibility
pub mod Dependency
pub mod StateMachine
pub mod Runtime
pub mod Planner
pub mod Router
pub mod Transactions
pub mod Lock
pub mod Causal
pub mod Continuity
mod Examples
