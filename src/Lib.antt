-- ===== src/Lib.antt =====
-- NightRecon
--
-- NightRecon is a suite of tools for authorized security assessments. Its core decides whether an
-- action may run: a target is parsed and compared with a scope, an engagement's policy is
-- evaluated, and a place in the engagement's budget is taken before a worker starts. This library
-- models that core and proves what the decisions and the stores guarantee.
--
-- The parts, and where they are modelled:
--
-- Prelude (file and folder): results of calls that may raise (Exceptions), tests and equality, Python's sequences,
--   text and dictionaries; a dictionary is an association list without repeated keys.
-- Authorization (file and folder): packages/shared-core/nightrecon_shared_core/authorization.py. `parse_target`,
--   `scope_from_values` (Scope.from_values), `matches_rule` (Scope._matches) and `is_authorized`.
-- Policy (file and folder): packages/shared-core/nightrecon_shared_core/engagement_policy.py. Policy/Types has the
--   policy and its checks (`post_init`), Policy itself `evaluate_action` and
--   `evaluate_reserved_action`, Policy/Store the FileEngagementPolicyStore.
-- Ledger (file and folder): packages/red-engine/nightrecon_red_engine/atomic_action_ledger.py.
-- Authority (file and folder): packages/red-engine/nightrecon_red_engine/transactional_policy_authority.py, which
--   calls the functions of Policy inside its transactions.
-- Approvals (folder): packages/white-engine/nightrecon_white_engine/approval_engine.py. Records and
--   Checks have the data and what their constructors check, Payload what the fingerprints are taken
--   of, History and Replay the checks of ApprovalWorkflow on its events (`build`), Status, Workflow
--   and Grant the methods, Rules and Recording what the methods ask and write, apart from
--   their code. It shares the target parser and the capability pattern with the rest.
-- Audit (folder): packages/white-engine/nightrecon_white_engine/audit_log.py. Events and Trails have
--   the records and the checks of their constructors, Codec `to_dict` and `from_dict`, Stores the
--   InMemoryAuditStore (`create_in`, `advance_in`) and the FileAuditStore around it.
-- Evidence (file and folder): packages/shared-core/nightrecon_shared_core. Contracts models contracts.py (its field
--   `data` is `payload`), Store the InMemoryEngagementStore of store.py, Files the FileEngagementStore
--   of file_store.py (`append_envelope_file` is its `append_envelope`), Workspace the LocalWorkspace of
--   workspace.py, and Authorizing its `authorize_action`, which asks Policy and writes to Policy/Store.
-- Json: the JSON values that Approvals and Audit build and read, and the data of Evidence.
-- Automation (folder): tools/task_automation. Checks, Runs, Paths and Candidates model controller.py
--   (`Check.validate`, `transition`, `path_name`, `inspect_candidate`); Queue (folder) models
--   queue.py, with Objectives and Leases for the records, Tables for `_read` and `_write`, and Calls
--   for the methods.
-- Graph (file and folder): packages/red-engine/nightrecon_red_engine. Index models graph_models.py and
--   graph_index.py, Traversal graph_traversal.py.
-- Streams (file and folder): packages/red-engine/nightrecon_red_engine/tcp_stream_reassembly.py; `assemble` is
--   the loop of `reassemble_tcp_segments`, and an Assembly its variables.
-- Tests (file and folder): the theorems at concrete inputs.
--
-- How the code is read. Strings are native strings and whole numbers native naturals; a negative
-- number fails the same tests as one below the bound, so it needs no value of its own, and the
-- `isinstance` tests hold by the types. What the standard library parses is a parameter: `Ip` gives
-- the address or the network of a text (with the documented law that a network has no host bits
-- set), `Platform.fromisoformat` the instant of a text; the arithmetic on the results is written
-- out. A write to a file either happens as a whole or raises, as `os.replace` is atomic, and
-- a flag of each call says which. A transaction of SQLite is kept whole or rolled back. An object
-- that goes through JSON comes back with the same fields and passes its checks anew. `lower` is
-- that of ASCII, which is exact for the texts that pass the hostname pattern; of the keys that Audit and
-- Evidence search for secrets, those with other letters that lower to ASCII ones are not modelled.
--
-- In Evidence the identifiers of records and metadata are not blank, as their constructors see to it,
-- so the store's own tests for that are left out where it takes one of these. The JSON objects of
-- Json keep their keys in one order, and its numbers are naturals that no Boolean or fraction equals.
--
-- Nothing here runs on fuel: each loop of the code is over a finite sequence, or over the levels
-- that a limit of depth allows, and is structural recursion on it.
--
-- SHA-256 over canonical JSON is the parameter `Services.fingerprint`, on the payloads as the code
-- builds them; `json.dumps` and `json.loads` of the escalation roles are parameters too. In the
-- approvals a time is a text with its instant in microseconds, since every constructor parses its
-- times first; times past the last representable one are not modelled.
--
-- The keyed MAC, canonical JSON and the verification of signed envelopes are parameters of the
-- queue (`Trust`), the digests of contents and bindings parameters of the controller (`Digests`).
--
-- Not modelled: the loading of JSON text, the reading of the authorization audit and the retry of
-- engagement_policy.py on Windows, opening databases, the command lines, the readers of JSON
-- documents, and the modules that talk to the network.
pub mod Prelude
pub mod Authorization
pub mod Policy
pub mod Ledger
pub mod Authority
pub mod Approvals
pub mod Audit
pub mod Automation
pub mod Evidence
pub mod Graph
pub mod Json
pub mod Streams
pub mod Tests
