-- ===== src/Lib.antt =====
-- Verification of finite-agent-physics: an execution kernel for agent workflows that keeps budgets,
-- quotas and real-world effects within declared limits.
--
-- The program is a Python package, src/agent_physics. A workflow is compiled into typed contracts,
-- admitted against an envelope, scheduled and run; what it uses is reserved and settled in a resource
-- ledger, and what it does to the world goes through a kernel of durable effect intents. Each of the
-- two keeps evidence that can be checked afterwards: an event log with an independent replay, and an
-- outbox that is written in the same transaction as the state.
--
-- Prelude holds what the modules share: tests on numbers and texts, Python dictionaries as association
-- lists in insertion order, and methods as functions from a state to a result and a state. A method that
-- raises returns the state as it was at the raise.
--
-- ResourceLedger models src/agent_physics/resource_ledger.py. Vector has ResourceVector; Events the
-- snapshots, events and event ids; Budget the class ResourceBudgetLedger with one function for each
-- method (reserve, settle, cancel, snapshot, _snapshot, _record); Replay the function
-- replay_and_verify with its loop. Amounts are natural numbers, which is what __post_init__ checks of
-- Python's integers; they are unbounded in both. Invariant, Decisions, Preservation, Calls, History
-- and Accounting are about the ledger; Audit, Checks, Genuine and Logs about the replay.
-- The replay's free-text details are left out, and the SHA-256 digest of a log is a parameter.
-- The decimal digits of an event id are computed with fuel one above the number, which is more than
-- its digits; the proof that ids differ shows that no digit is lost.
-- Not modelled: as_dict, the failure corpus and the seeded stress corpus.
--
-- Effects models src/agent_physics/effects.py, with EffectClass of src/agent_physics/contracts.py.
-- Types has the intents, tokens, grants and outbox events; Adapter the class SimulatedEffectAdapter;
-- Database the SQLite tables as lists, _transaction, _load, _enqueue, _set_state and _assert_fence;
-- Proposals the methods propose, prepare, acquire_fence and abort of SQLiteEffectBroker; Approval
-- ApprovalAuthority.issue, _verify_grant, _stored_grant and approve; Commit the methods commit and
-- compensate; Outbox pending_outbox and mark_outbox_published. Calls has sequences of calls by several
-- brokers, in the order in which the database serialises its transactions. A method that raises takes
-- back the database and not the target, the clock or the generated ids. The payload of an outbox event
-- is kept as a record, before it is written as JSON. The digest of an operation, the HMAC, the clock
-- and the unique ids are fields of the parameter Platform, and a database constraint that fails is an
-- error of its own. Times are natural numbers.
-- Evolution, Rows, Machine, Transitions, Lifecycle and Histories are about the intents; Targets and
-- Authority and Commitment about the calls of the target; Rollback about the calls that raise; Fencing about old
-- tokens; Grants about issue and _verify_grant.
-- Not modelled there: argument checks of the constructors, canonical JSON,
-- scoped_effect_idempotency_key, connections, locks and time-outs of SQLite.
--
-- Quota models src/agent_physics/provider_quota.py. Buckets has FakeIntegerClock, QuotaLimits,
-- RetryPolicy with backoff_for, and _FixedTimeTokenBucket; Requests has CallRequest, RefusalReason and
-- _identity_reasons; State the attributes of ProviderQuotaPhysics, its events and __init__; Admission
-- has acquire, and Settlement has _settle_active, complete, fail_retryable and provider_429. Calls
-- composes them into histories in which the clock moves. The details of an event are a constructor for
-- each kind, with the values that the code's dictionary holds; the constants of the configuration event
-- are left out. Identities has _attempt_identity and _lease_identity, over a parameter for SHA-256 and with
-- a text as the list of its code points, which .encode() of a lone surrogate would refuse. A shortened
-- digest can collide; the properties that need it assume that of the texts hashed in the run, no two that
-- differ have the same shortened digest. Invariant, Settled, Ends, Permitted,
-- Admitted, Decisions and Histories are about the object; Bounds is about the bucket; Digests has a hash
-- without collisions for the instances.
-- Not modelled there: the digest of the events, replay_quota_events and the burst corpus.
--
-- Adapters models src/agent_physics/adapter_capabilities.py and the capability contracts of
-- src/agent_physics/contracts.py. Capabilities has AdapterCapabilities.validate and
-- validate_adapter_bindings; a task is what the loop reads of it, and the tasks come in the order of
-- sorted(profiles). Each message is a constructor, and the checks of Python types hold of every value.
--
-- Contracts models the validate methods of src/agent_physics/contracts.py, each as the list of its
-- errors: Ports has OutputPort, InputPort and Effect, Profiles BackendProfile, Tasks TaskContract, and
-- Envelopes RunEnvelope. An integer may be negative there, since the methods test for it. Floating-point numbers, and the three
-- tests made of them, are a parameter. An error is a constructor for each message, with the names in it.
-- Graph models ExecutionGraph of src/agent_physics/graph.py: Graphs has by_id and the errors of validate,
-- Walks _validate_acyclic and validate, Order successors and topological_order. A recursion of visit
-- gets fuel for its depth, one more than the number of names, since the tasks being visited differ; the
-- limit of Python's own stack is not modelled. The loop of topological_order gets one more than the
-- number of names, since each becomes ready at most once. Decided and Validated are about validate,
-- the other modules about topological_order: Waiting and Ordered about its end, Successors and Found
-- about the successors, Sound, Counting, Starts, Passes, Runs, Reached, Topological and Total about the
-- order.
--
-- Physical models src/agent_physics/physical_resources.py: Arithmetic the sums and products that refuse
-- above 2 ^ 63 - 1, Amounts the fields that _strict_i64 checks, Inputs _validate_inputs and
-- _protected_task_ids, Paths _critical_path, Analysis, Report and Signing the method analyze. It uses validate
-- and topological_order of Graph. A Python set is a list in the order of its first insertions; the code
-- reads two sets in an order that the language leaves open, which decides only which of several errors is
-- raised. The loop of _protected_task_ids gets fuel for the tasks and for their names, and one more, since
-- each known name is taken off the stack at most once. The tests of the types of the arguments are not
-- modelled, since the types say it; neither are the coverage matrix and the constant texts. Signing has
-- the digests of the report and the report's verification of its own digest; content_digest, which is
-- SHA-256 over the canonical JSON of src/agent_physics/serialization.py, is a parameter that returns or
-- raises, and nothing is assumed of it. Sums, Peaks and Times are about the numbers; Ranks,
-- Chains, CriticalPath and PathEnds about the critical path; Following, Protected and Mandatory about the
-- mandatory work; Selected, Judged and Admitted about the whole method.
--
-- Scheduler models src/agent_physics/scheduler.py, with the events of src/agent_physics/events.py and
-- upward_ranks of graph.py. Choices has _choose_profile, _future_plan_fits, _pareto_minimal and
-- _effect_conflicts; Plans the result, the entries and the local variables of schedule; Ranks the upward
-- ranks and the lower bounds; Dispatch _sort_ready, fail and the dispatch of the ready tasks; Loop the
-- rest of schedule. A
-- `return` from within the loop and an exception are the two kinds of Exit. The heap is a list in the
-- order in which it is popped, a set of texts is a list, and the code's set of states a list from which
-- _pareto_minimal drops a state given twice. The operations on floating-point numbers are a parameter.
-- _protected_task_ids is the one of Physical, whose code is the same. The texts of the reasons are
-- constructors. The loop gets fuel for one pass more than twice the number of tasks, since a pass starts,
-- skips or completes a task, or ends the run. Future, Covers and Exact are about _future_plan_fits
-- and _choose_profile, and Covers states what it assumes of the floating-point numbers; Entries,
-- Invariant, Started, Ended, Refused, Waiting, Dispatched, Passes, Fuel, Accepted and Bounded are about
-- the schedule.
-- Not modelled there: as_dict of the events and of the result, and the ratio model_bound_gap.
--
-- Not modelled of graph.py: from_tasks, which only makes a graph and validates it. No other part of
-- the package is modelled: the independent checks of a schedule, context packing and replanning are
-- outside; HTTP, MCP, command line, benchmarks and report generators are glue or input and output.
pub mod Prelude
pub mod ResourceLedger
pub mod Effects
pub mod Quota
pub mod Adapters
pub mod Contracts
pub mod Graph
pub mod Physical
pub mod Scheduler
