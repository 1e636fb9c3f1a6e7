-- ===== src/Lib.antt =====
-- Oria: durable jobs, the execution ledger of external side effects, approvals,
-- confirmations, the inbox of integration events, dispatch, eligibility and the product catalog.
--
-- Parts and files. `Base` and its children hold what the others share: Boolean tests, results for
-- calls that raise, lists, and a table of rows under a compare-and-set UPDATE.
--
-- Jobs. A job is a row of the platform database. Requests (src/oria/api/jobs.py) submit and cancel it,
-- workers (src/oria/orchestrator/job_leases.py) claim it under a lease and write it while the lease
-- holds, the scheduler retries and expires it. Every write is a transaction of the repository
-- (src/oria/storage/jobs.py) that the rules (src/oria/core) have let pass.
--   Jobs             src/oria/core/jobs.py: Job, Job.valid_state, validate_job_update,
--                    validate_transition
--   Jobs.Lease       src/oria/core/job_leases.py: lease_token, validate_lease, validate_claim,
--                    validate_lease_change
--   Jobs.Schedule    src/oria/core/job_scheduling.py
--   Jobs.Repository  src/oria/storage/jobs.py: submit, replace, replace_leased,
--                    replace_scheduled, _replace, _append_event, _hold_execution_lease
--   Jobs.Worker      src/oria/orchestrator/job_leases.py: claim, heartbeat, finish,
--                    schedule_retry, release_retry, expire
--   Jobs.Checkpoint  the same file: publish_checkpoint
--   Jobs.Admission   src/oria/api/jobs.py: submit, cancel
--   Jobs.Rules, Transaction, Forward, EventLog, History, Fencing, Progress, Lineage hold proofs:
--   what each validator implies, what a transaction does, and what holds of any history of calls.
--
-- Execution ledger. A tool that acts outside the system is reserved, marked as executing, invoked
-- and its outcome committed, each in its own transaction of the business database.
--   Ledger             src/oria/domain/ledger.py: ToolExecution, transition_to
--   Ledger.Events      domain events, audit events and the outbox (src/oria/storage/ledger.py)
--   Ledger.Repository  src/oria/storage/ledger.py: reservation, request keys, _transition
--   Ledger.Outcome     src/oria/core/execution_ledger.py: _commit_outcome,
--                      record_local_success, recover_stale_executing
--   Ledger.Execution   the same file: execute and the invocation of the adapter
--   Ledger.Calls       the interleavings: a list of transactions, in any order
--   Ledger.Transition, Law, Steps, Answers, Runs, Advance, Completion, Counting, Covered and
--   Invocations hold proofs: what a committed transition does, and the relations that every transaction respects.
--
-- Approvals. A side effect that needs a human decision waits for an approval: it is requested, decided
-- by someone else, and checked again when the tool resumes; a change of the campaign's business facts
-- invalidates it.
--   Approvals               src/oria/core/approvals.py: Approval, approval_resume_rejection
--   Approvals.Store         src/oria/storage/platform.py: the approval table with audit and outbox
--   Approvals.Service       src/oria/core/approvals.py: create, decide, decide_outcome,
--                           invalidate_binding
--   Approvals.Resume        the same file: authorize_resume
--   Approvals.Invalidation  the consumer of binding facts, and its table in the platform database
--   Approvals.Memory        src/oria/core/approvals.py: the repository in memory
--   Approvals.Calls         the interleavings: a list of operations, each with the read it made
--   Approvals.Frozen, Bindings, Changes, Operations, History, Verdicts, Conditions, Granted, Facts,
--   Consumption and Agreement hold proofs.
--
-- Confirmations. An item that a merchant enrolls is confirmed by a chain of tasks, one after the other;
-- each is confirmed, rejected or timed out, and the item follows.
--   Confirmations           src/oria/domain/business.py: EnrollmentItem, ConfirmationTask
--   Confirmations.Policy    src/oria/domain/confirmations.py: generate_tasks, resolve_timeout of
--                           the policy
--   Confirmations.Service   the same file: _current_task, _transition, and what decide and
--                           resolve_timeout compute
--   Confirmations.Store     src/oria/storage/repositories.py: apply_confirmation_chain, _update; decide
--                           and resolve_timeout with their commit
--   Confirmations.Chains    what a chain is, apart from the code, and the step of a chain
--   Confirmations.Answer    the step with every changed column written out
--   Confirmations.Advance, Changes, Transition, Progress, Writes, History and Generation hold proofs.
--
-- Integration events. An adapter delivers signed events; one that matches what a trusted wait waits for
-- is recorded as matched, once for its identity, and the workflow that resumes consumes it together
-- with the wait.
--   Inbox                   src/oria/core/integration_events.py: events, waits, records
--   Inbox.Redaction         the same file: _redact_payload
--   Inbox.Store             src/oria/storage/platform.py: add_wait, get_wait, add, get, consume_matched
--   Inbox.Service           src/oria/core/integration_events.py: register_wait, process, _classify
--   Inbox.Visibility, Matching, Allowance, Claims, Consumption, Delivery and Handover hold proofs.
--
-- Eligibility. The hard conditions on the merchants that a campaign may recruit.
--   Eligibility             src/oria/domain/eligibility.py: evaluate, eligible_merchants
--   Eligibility.Admission   proofs
--
-- Dispatch. A receiver of dispatched work checks the lease of the job that sends it, and a later owner
-- reconciles what an earlier one sent.
--   Dispatch                src/oria/core/dispatch.py: DispatchRequest, DispatchObservation,
--                           validate_dispatch_admission, validate_dispatch_payload,
--                           validate_dispatch_history, reconcile_dispatch
--   Dispatch.Fencing (with the proofs of Jobs), Checks and Reconciliation hold proofs.
--
-- Products. A campaign's products are read from a catalog in pages and checked against frozen conditions.
--   Products                src/oria/domain/product_eligibility.py: evaluate, evaluate_page
--   Products.Cursor         src/oria/adapters/products.py: _encode_cursor, _decode_cursor
--   Products.Catalog        the same file: install_snapshot, list_products
--   Products.Loading        src/oria/domain/enrollment.py: _load_products
--   Products.Paging, Admission hold proofs.
--
-- Conventions. A state is a record of tables; an operation takes it and returns its result and the
-- state after it; a transaction that raises leaves the state. A clock reading is `Reading`: naive
-- or an instant in microseconds. A guard or an identity check is given by what its k-th call
-- returns. Exceptions are values of one error type for each part. Interleavings are lists of
-- transactions, each of which may carry a row that was read long before.
--
-- Bounds. The loop of publish_checkpoint climbs at most 256 parents in the source; the model keeps
-- that bound as the number of rounds and is not otherwise fuelled. The loop of _load_products has no
-- bound in the source; its model has fuel, and more rounds than products are enough, since every page
-- but the last has a product. All else is structural.
--
-- Not modelled: the texts of identifiers and hashes (hash functions and formatted names are
-- parameters), redaction in the ledger's events, policy and identity themselves, sessions, queries that
-- only list rows, the canonical form of tool arguments, the parse of raw values into a shape, the
-- validators that normalise a product, and the other components of the repository (the writes of
-- enrollment, assortment and launch, retrieval, agents, providers, evaluation, command line).
pub mod Base
pub mod Jobs
pub mod Ledger
pub mod Approvals
pub mod Confirmations
pub mod Inbox
pub mod Eligibility
pub mod Products
pub mod Dispatch
