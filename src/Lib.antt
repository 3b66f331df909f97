-- ===== src/Lib.antt =====
-- The governance runtime of the agent registry (the Python package hlinor_registry).
--
-- An application asks the policy checker about an action request. The checker serves a verified
-- snapshot of agents; each agent has an allow list and a block list of patterns over request keys, and
-- typed policies that can refuse what the lists permit. Around the dispatch of an allowed action stand
-- two durable gates that all workers share, each a set of SQLite tables: the circuit breaker, one row
-- per failure fingerprint, and the runtime limits, with leases, rate events and a kill switch. Verified
-- snapshots are kept in a process-local cache, and a request may be bound to an execution scope. A
-- finished task counts as a success only by the acceptance gate. An approval
-- of an action is a signed token, verified against the request and claimed once in a replay guard; a
-- delegation hands a part of an agent's authority on, in a chain whose links are verified against each
-- other and against a table of registered children.
-- Messages between agents are signed and bound to a scope.
-- Receipts of what was done are kept in a chain of hashes.
-- A bound tool is invoked through all of these: its arguments are normalized, the approval and the
-- delegation verified, the request decided, the breaker and the budget asked and a receipt stored before
-- the tool is called; the lease is given back at the end. A store keeps records and messages by project and
-- workspace.
--
-- Files and code (paths from the repository's root):
--   Prelude         shared tests, lists, integers, texts, JSON values and results
--   Filtering       what a test leaves of a list, for the tables that are filtered
--   Fnmatch         Python's fnmatch.fnmatchcase, brackets included, as the matcher uses it;
--                   Fnmatch/Language has its patterns as a relation
--   Matching        hlinor_registry/_matching.py: request_key, pattern_errors, matches, find_match,
--                   find_block_match, patterns_can_overlap, overlapping_allow_patterns
--   ActionRequest   hlinor_registry/action_request.py: the record, __post_init__ as post_init, to_dict
--   Policies        hlinor_registry/policies.py: Clock has _parse_timestamp and _freshness_error, Rule the
--                   handlers and PolicyRule.check, Definition has policy_definition_errors, Loading has
--                   load_policy_rules
--   Enums, Decision hlinor_registry/enums.py and decision.py
--   PolicyChecker   hlinor_registry/policy_checker.py: evaluate from the agent lookup on, split at its
--                   early returns into evaluate_agent, permit, apply_rules and decide
--   CircuitBreaker  hlinor_registry/circuit_breaker.py: before_dispatch, record_failure, record_success and
--                   start_probe, each a transaction on a table of rows
--   RuntimeLimits   hlinor_registry/runtime_limits.py: acquire, release and the kill switch on a store of
--                   three tables
--   BundleCache     hlinor_registry/bundle_cache.py: _get as get, _put as put, invalidate, clear
--   ExecutionScope  hlinor_registry/execution_scope.py
--   Outcome         hlinor_registry/outcome.py: OutcomeAcceptanceGate as new_gate and evaluate_outcome
--   Tokens          what the signed tokens share: reading fields, _check_window as check_window, the check of
--                   a signature; lemmas in Tokens/Reading and Tokens/Setting
--   ReplayGuard     hlinor_registry/execution_receipts.py: SQLiteReplayGuard and InMemoryReplayGuard on a
--                   store of claims and revocations
--   Approval        hlinor_registry/execution_receipts.py: sign_approval_token (Approval/Signing) and
--                   verify_approval_token, split into read_approval, check_authority, approval_facts and
--                   use_once
--   Delegation      hlinor_registry/delegation.py: the checks of fields, Token with verify_delegation_token,
--                   Signing, Chain with verify_delegation_chain, Transport with
--                   verify_delegation_transport, FanOut with the fan-out guards; lemmas on what a token says and
--                   what it is bound to stand in Reading and Bindings
--   Receipts        hlinor_registry/execution_receipts.py: verify_receipt_chain, with
--                   validate_execution_receipt of hlinor_registry/validator.py as valid_receipt; Sink has
--                   HashChainedReceiptSink.append as append_receipt; lemmas on what a hash covers and on
--                   links stand in Hashing and Linked
--   Messages        hlinor_registry/message_transport.py: verify_scoped_message, split into read_message,
--                   check_sender, message_facts and deliver_once, and sign_scoped_message in Messages/Signing;
--                   lemmas on its fields and its times stand in Reading and Window
--   ScopedStore     hlinor_registry/scoped_store.py: put as put_record and get as get_record; Listing has
--                   list as list_records, with SQLite's LIKE, which reads texts up to their first U+0000;
--                   Mailbox has send_message and list_messages, and Reader an agent that calls the latter;
--                   Spec is the map that the records are to behave as, and lemmas on the rows stand in
--                   Addresses
--   RuntimeBinding  hlinor_registry/runtime_binding.py: BoundTool.invoke over a record of services. Frame has
--                   its local variables and exceptions, Signals and Request the part before the decision,
--                   with the authorize of hlinor_registry/integrations/_gate.py, Receipt its emit_receipt,
--                   Invoke the rest; lemmas on its steps stand in Stability, Keeping, Post and
--                   Backing
--   Samples         data for the tests; each component's Tests runs it on them
--
-- Choices. Texts are lists of code points. Parsed JSON and YAML is one type of values; floats are
-- millionths, with NaN and the infinities apart. Instants are natural numbers of microseconds, where the
-- source subtracts datetimes or float seconds; their rounding is left out, and a difference that may be
-- negative is compared by a sum. Exceptions are values of a result type, messages are constructors. What
-- the program calls outside the repository is an argument: str.casefold, datetime.fromisoformat, the
-- digest of a request, RFC 8785 canonical bytes, base64, the
-- verification by a public key, json.dumps and json.loads, the clock, fresh identifiers, whether the database answers, and what other workers
-- commit between two transactions. All functions are structurally
-- recursive but one: the tokens of a pattern are read on fuel, which is the length of the pattern and
-- enough, as Fnmatch/Fuel shows.
--
-- Not modelled: loading and signatures of bundles, the reload of a snapshot, the signing of
-- a delegation transport, the receipt file, the binding of tools to contracts and the normalization of their
-- arguments, correlation contexts, the command line, the authoring validator and reports, and file, SQL and
-- console input and output as such.
pub mod Prelude
pub mod Fnmatch
pub mod Matching
pub mod Enums
pub mod ActionRequest
pub mod Policies
pub mod Decision
pub mod PolicyChecker
pub mod CircuitBreaker
pub mod RuntimeLimits
pub mod BundleCache
pub mod Filtering
pub mod ExecutionScope
pub mod Outcome
pub mod Tokens
pub mod ReplayGuard
pub mod Approval
pub mod Delegation
pub mod Receipts
pub mod Messages
pub mod ScopedStore
pub mod RuntimeBinding
pub mod Samples
