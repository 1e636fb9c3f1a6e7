-- ===== src/Jobs/Repository.antt =====
-- src/oria/storage/jobs.py: the job table, its event log, and the compare-and-set transactions.
-- A transaction that raises is rolled back. The guard and the clock are given by what their k-th
-- call in the transaction returns. A constraint violation is `unavailable`; other database faults,
-- which roll back too, are not modelled.
use oria.Base.{
  ℕ, suc, ◌+◌, String, Bool, true, false, not, ◌&&◌, ◌||◌, Option, none, some, List, ◌∷◌, Result,
  ok, err, ◌>>=◌, ◌>>◌, raise_if, or_raise, Reading, instant, commit, ◌==◌, is, String_discrete,
  find, any, replace_where,
}
use oria.Jobs.{
  Status, cancelled, cancellation_requested, Job, JobSubmission, Job-discrete, JobError, is_queued,
  is_running, with_mutable_fields, model_validate, validate_transition,
}
use oria.Jobs.Lease.{
  LeaseOperation, claim, JobLeaseToken, Namespace, validate_lease, validate_claim,
  validate_lease_change, lapsed,
}
use oria.Jobs.Schedule.{ScheduleOperation, validate_schedule_change}

pub record JobEvent : Type 0 where
  pub tenant_id : String
  pub job_id : String
  pub sequence : ℕ
  pub status : Status
  pub created_at : ℕ

pub record Store : Type 0 where
  pub rows : List Job
  pub events : List JobEvent

-- What the k-th call of the guard does.
abbrev pub Guard : Type 0
Guard = ℕ → Result JobError (Unit {0})

abbrev pub Clock : Type 0
Clock = ℕ → Reading

abbrev pub has_id : String → String → Job → Bool
has_id tenant_id job_id row =
    is (String_discrete row.tenant_id tenant_id) && is (String_discrete row.job_id job_id)

abbrev pub has_sequence : Job → JobEvent → Bool
has_sequence job event =
    is (String_discrete event.tenant_id job.tenant_id)
    && is (String_discrete event.job_id job.job_id)
    && event.sequence == job.revision

abbrev pub event_of : Job → JobEvent
event_of job = record {
  tenant_id = job.tenant_id;
  job_id = job.job_id;
  sequence = job.revision;
  status = job.status;
  created_at = job.updated_at;
}

-- `(tenant_id, job_id, sequence)` is the key of `job_events`.
unfoldable pub append_event : List JobEvent → Job → Result JobError (List JobEvent)
append_event events job = do
  raise_if (any (has_sequence job) events) JobError.unavailable
  ok (event_of job ∷ events)

-- `UPDATE jobs SET … WHERE` every column of `expected` is unchanged `RETURNING job_id`.
unfoldable pub update_where : Job → Job → List Job → Option (List Job)
update_where expected replacement =
    replace_where (λ row. Job-discrete row expected) (λ row. with_mutable_fields row replacement)

-- The cancellation that another request has already recorded.
abbrev pub is_cancelling : Status → Bool
is_cancelling cancelled = true
is_cancelling cancellation_requested = true
is_cancelling _ = false

unfoldable pub fresh_row :
    Store → List Job → Job → Guard → Result JobError (Unit {0}) → Result JobError (Job × Store)
fresh_row store rows replacement guard commit_guard = do
  events ← append_event store.events replacement
  guard 1
  commit_guard
  ok (replacement, record { rows = rows; events = events })

abbrev pub reject : Store → JobError → Result JobError Job × Store
reject store e = (err e, store)

-- Checks that raise before the transaction begins.
abbrev pub after_checks :
    {A : Type 0}
    → Store
    → Result JobError A
    → (A → Result JobError Job × Store)
    → Result JobError Job × Store
after_checks store (err e) run = reject store e
after_checks store (ok a) run = run a

-- `check_time` of `replace_leased`, at one reading of the clock.
abbrev pub check_lease_time :
    Job → Job → LeaseOperation → Option JobLeaseToken → Reading → Result JobError (Unit {0})
check_lease_time expected replacement claim token now = do
  validate_claim expected now
  at ← instant now JobError.naive_time
  raise_if (lapsed replacement.lease_expires_at at) JobError.lease_expired_before_submission
check_lease_time expected replacement operation token now = do
  held ← or_raise token JobError.token_required
  validate_lease expected held now

-- `fenced_guard` and `check_commit`: a check of the time before and after, at the readings
-- `2 k` and `2 k + 1`.
abbrev pub timed : (Reading → Result JobError (Unit {0})) → Clock → Guard → Guard
timed check clock guard k = check (clock (k + k)) >> (guard k >> check (clock (suc (k + k))))

-- `_hold_execution_lease`: the checks before the body runs; the row is locked, never changed.
unfoldable pub hold_execution_lease :
    Store → Job → JobLeaseToken → Reading → Result JobError (Unit {0})
hold_execution_lease store expected token now = do
  _ ← or_raise (update_where expected expected store.rows) JobError.revision_changed
  validate_lease expected token now
  raise_if (not (is_running expected.status) || expected.cancel_requested) JobError.not_executable

-- The unique key `(tenant_id, requester_subject_id, idempotency_key)`.
abbrev pub has_key : Job → Job → Bool
has_key value row =
    is (String_discrete row.tenant_id value.tenant_id)
    && is (String_discrete row.requester_subject_id value.requester_subject_id)
    && is (String_discrete row.idempotency_key value.idempotency_key)

-- The primary key, and the unique thread of a tenant.
abbrev pub clashes : Job → Job → Bool
clashes value row =
    has_id value.tenant_id value.job_id row
    || (is (String_discrete row.tenant_id value.tenant_id)
        && is (String_discrete row.thread_id value.thread_id))

unfoldable pub inserted : Store → Job → Guard → Result JobError (Job × Store)
inserted store value guard = do
  raise_if (any (clashes value) store.rows) JobError.unavailable
  events ← append_event store.events value
  guard 1
  ok (value, record { rows = value ∷ store.rows; events = events })

module _ (submission_hash : JobSubmission → String) where
  -- `_job` validates the row that was read.
  unfoldable pub read : Store → String → String → Result JobError (Option Job)
  read store tenant_id job_id = elim (find (has_id tenant_id job_id) store.rows) [
    | none ↦ ok none
    | some row ↦ model_validate submission_hash row >>= λ job. ok (some job)
  ]

  -- The branch of `_replace` on a row that changed since it was read.
  unfoldable pub stale_row : Store → Job → Guard → Bool → Result JobError (Job × Store)
  stale_row store expected guard idempotent_cancel = do
    current ← read store expected.tenant_id expected.job_id
    row ← or_raise current JobError.revision_changed
    raise_if
        (not (
          idempotent_cancel
          && is_cancelling row.status
          && is (String_discrete row.request_hash expected.request_hash)))
        JobError.revision_changed
    guard 1
    ok (row, store)

  -- `_replace`: one transaction. `commit_guard` is what the listener before COMMIT does.
  unfoldable pub replace_row :
      Store → Job → Job → Guard → Bool → Result JobError (Unit {0}) → Result JobError Job × Store
  replace_row store expected replacement guard idempotent_cancel commit_guard = commit store do
    guard 0
    elim (update_where expected replacement store.rows) [
      | none ↦ stale_row store expected guard idempotent_cancel
      | some rows ↦ fresh_row store rows replacement guard commit_guard
    ]

  unfoldable pub replace : Store → Job → Job → Guard → Bool → Result JobError Job × Store
  replace store expected replacement guard idempotent_cancel =
      after_checks store
        (model_validate submission_hash replacement >>= λ valid. validate_transition expected valid)
        λ _. replace_row store expected replacement guard idempotent_cancel (ok tt)

  -- The second call of `guard` is the last one in a transaction; call 2 is the commit guard.
  unfoldable pub replace_leased :
      Namespace
      → Store
      → Job
      → Job
      → Guard
      → LeaseOperation
      → Option JobLeaseToken
      → Clock
      → Result JobError Job × Store
  replace_leased checkpoint_ns store expected replacement guard operation token clock =
      let fenced : Guard =
        timed (check_lease_time expected replacement operation token) clock guard in
      after_checks store
        (do
          held ← model_validate submission_hash expected
          valid ← model_validate submission_hash replacement
          validate_lease_change checkpoint_ns held valid operation token)
        λ _. replace_row store expected replacement fenced false (fenced 2)

  unfoldable pub replace_scheduled :
      Store
      → Job
      → Job
      → Guard
      → ScheduleOperation
      → Option JobLeaseToken
      → Clock
      → Result JobError Job × Store
  replace_scheduled store expected replacement guard operation token clock =
      let check =
        λ (now : Reading). validate_schedule_change expected replacement operation token now in
      let checked : Guard = timed check (λ k. clock (suc k)) guard in
      after_checks store
        (do
          held ← model_validate submission_hash expected
          valid ← model_validate submission_hash replacement
          check (clock 0))
        λ _. replace_row store expected replacement checked false (checked 2)

  -- The rest of the transaction for a key that is taken: nothing is written.
  unfoldable pub resubmitted : Store → Job → Job → Guard → Result JobError (Job × Store)
  resubmitted store value row guard = do
    result ← model_validate submission_hash row
    raise_if (not (is (String_discrete result.request_hash value.request_hash)))
        JobError.key_content_conflict
    guard 1
    ok (result, store)

  unfoldable pub submit : Store → Job → Guard → Result JobError Job × Store
  submit store value guard =
      after_checks store
        (model_validate submission_hash value >>= λ valid.
          raise_if
            (not (is_queued valid.status)
              || not (valid.revision == 0)
              || not (valid.attempt == 0)
              || not (valid.lease_epoch == 0))
            JobError.new_job_not_queued)
        λ _. commit store (
          guard 0 >> elim (find (has_key value) store.rows) [
            | none ↦ inserted store value guard
            | some row ↦ resubmitted store value row guard
          ])
