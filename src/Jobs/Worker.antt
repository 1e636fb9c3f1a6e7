-- ===== src/Jobs/Worker.antt =====
-- src/oria/orchestrator/job_leases.py: the operations of a worker on leased jobs.
-- Identity and policy are given by what their checks return (`Authority`).
use oria.Base.{
  ℕ, suc, ◌+◌, ◌*◌, min, String, not, ◌||◌, Option, none, some, Result, ok, err, ◌>>=◌, ◌>>◌,
  raise_if, or_raise, Reading, instant, ltb, is, String_discrete, if◌then◌else◌,
}
use oria.Jobs.{
  Status, running, retry_scheduled, queued, cancelled, failed, Job, JobSubmission, JobError,
  is_terminal, model_validate,
}
use oria.Jobs.Lease.{
  LeaseOperation, claim, heartbeat, finish, JobLeaseToken, Namespace, validate_claim,
  validate_lease, claimed_attempt,
}
use oria.Jobs.Schedule.{ScheduleOperation, retry, release_retry, expire, validate_schedule_time}
use oria.Jobs.Repository.{
  Store, Guard, Clock, read, replace_leased, replace_scheduled, after_checks,
}

-- The tenant and the owner name of a worker, and the length of its leases.
pub record Worker : Type 0 where
  pub tenant_id : String
  pub owner : String
  pub duration : ℕ

-- What the checks of identity and policy return in one call: before it, in its transaction
-- (call 2 of the guard is `check_commit`), and after it.
pub record Authority : Type 0 where
  pub initial : Result JobError (Unit {0})
  pub guard : Guard
  pub final : Result JobError (Unit {0})

-- `self._current(result, ctx)` after the write, which stays written.
abbrev pub then_current : Result JobError Job × Store → Authority → Result JobError Job × Store
then_current (ok job, store) authority = (authority.final >> ok job, store)
then_current (err e, store) authority = (err e, store)

-- The readings after the first `n`.
abbrev pub later : ℕ → Clock → Clock
later n clock k = clock (k + n)

-- The replacements that the operations write, at an instant.
unfoldable pub claimed : Worker → Job → ℕ → Job
claimed worker job now = record job {
  status = running;
  revision = suc job.revision;
  attempt = claimed_attempt job;
  lease_epoch = suc job.lease_epoch;
  lease_owner = some worker.owner;
  heartbeat_at = some now;
  lease_expires_at = some (min (now + worker.duration) job.timeout_at);
  updated_at = now;
}

unfoldable pub renewed : Worker → Job → ℕ → Job
renewed worker job now = record job {
  revision = suc job.revision;
  updated_at = now;
  heartbeat_at = some now;
  lease_expires_at = some (min (now + worker.duration) job.timeout_at);
}

unfoldable pub finished : Job → Status → ℕ → Job
finished job status now = record job {
  status = status;
  revision = suc job.revision;
  updated_at = now;
  lease_owner = none;
  heartbeat_at = none;
  lease_expires_at = none;
}

unfoldable pub retried : Job → ℕ → ℕ → Job
retried job delay now = record job {
  status = retry_scheduled;
  revision = suc job.revision;
  updated_at = now;
  retry_at = some (now + delay);
  lease_owner = none;
  heartbeat_at = none;
  lease_expires_at = none;
}

unfoldable pub released : Job → ℕ → Job
released job now = record job {
  status = queued;
  revision = suc job.revision;
  updated_at = now;
  retry_at = none;
  attempt = suc job.attempt;
}

unfoldable pub expired : Job → ℕ → Job
expired job now = record job {
  status = (if job.cancel_requested then cancelled else failed);
  revision = suc job.revision;
  updated_at = now;
  retry_at = none;
  lease_owner = none;
  heartbeat_at = none;
  lease_expires_at = none;
}

-- Microseconds in a second.
abbrev pub second : ℕ
second = 1000000

module _ (submission_hash : JobSubmission → String) (checkpoint_ns : Namespace) where
  -- `_load`; `JobRepository.get` reports an invalid row as unavailable.
  unfoldable pub load : Store → Worker → String → Result JobError Job
  load store worker job_id = elim (read submission_hash store worker.tenant_id job_id) [
    | ok found ↦ or_raise found JobError.denied
    | err _ ↦ err JobError.unavailable
  ]

  -- `_leased`
  unfoldable pub leased : Store → Worker → Authority → JobLeaseToken → Reading → Result JobError Job
  leased store worker authority token now = do
    raise_if
        (not (is (String_discrete token.tenant_id worker.tenant_id))
          || not (is (String_discrete token.owner worker.owner)))
        JobError.denied
    job ← load store worker token.job_id
    validate_lease job token now
    authority.initial
    ok job

  -- A replacement that is validated, written under the lease and checked again.
  unfoldable pub update :
      Store
      → Authority
      → LeaseOperation
      → Option JobLeaseToken
      → Clock
      → Job × Job
      → Result JobError Job × Store
  update store authority operation token clock (job, replacement) =
      then_current
        (replace_leased submission_hash checkpoint_ns store job replacement authority.guard
          operation token clock)
        authority

  unfoldable pub schedule :
      Store
      → Authority
      → ScheduleOperation
      → Option JobLeaseToken
      → Clock
      → Job × Job
      → Result JobError Job × Store
  schedule store authority operation token clock (job, replacement) =
      then_current
        (replace_scheduled submission_hash store job replacement authority.guard operation token
          clock)
        authority

  unfoldable pub claim_job :
      Store → Worker → Authority → String → Clock → Result JobError Job × Store
  claim_job store worker authority job_id clock =
      after_checks store
        (do
          job ← load store worker job_id
          authority.initial
          now ← instant (clock 0) JobError.naive_time
          validate_claim job (clock 0)
          replacement ← model_validate submission_hash (claimed worker job now)
          ok (job, replacement))
        (update store authority claim none (later 1 clock))

  unfoldable pub heartbeat_job :
      Store → Worker → Authority → JobLeaseToken → Clock → Result JobError Job × Store
  heartbeat_job store worker authority token clock =
      after_checks store
        (do
          job ← leased store worker authority token (clock 0)
          now ← instant (clock 1) JobError.naive_time
          replacement ← model_validate submission_hash (renewed worker job now)
          ok (job, replacement))
        (update store authority heartbeat (some token) (later 2 clock))

  unfoldable pub finish_job :
      Store → Worker → Authority → JobLeaseToken → Status → Clock → Result JobError Job × Store
  finish_job store worker authority token status clock =
      after_checks store
        (do
          job ← leased store worker authority token (clock 0)
          now ← instant (clock 1) JobError.naive_time
          replacement ← model_validate submission_hash (finished job status now)
          ok (job, replacement))
        (update store authority finish (some token) (later 2 clock))

  unfoldable pub schedule_retry :
      Store → Worker → Authority → JobLeaseToken → ℕ → Clock → Result JobError Job × Store
  schedule_retry store worker authority token delay_seconds clock =
      after_checks store
        (do
          raise_if (ltb delay_seconds 1 || ltb 86400 delay_seconds) JobError.invalid_delay
          job ← leased store worker authority token (clock 0)
          now ← instant (clock 1) JobError.naive_time
          validate_schedule_time job retry (clock 1) (some token)
          replacement ← model_validate submission_hash (retried job (delay_seconds * second) now)
          ok (job, replacement))
        (schedule store authority retry (some token) (later 2 clock))

  unfoldable pub release_retry_job :
      Store → Worker → Authority → String → Clock → Result JobError Job × Store
  release_retry_job store worker authority job_id clock =
      after_checks store
        (do
          job ← load store worker job_id
          authority.initial
          now ← instant (clock 0) JobError.naive_time
          validate_schedule_time job release_retry (clock 0) none
          replacement ← model_validate submission_hash (released job now)
          ok (job, replacement))
        (schedule store authority release_retry none (later 1 clock))

  -- Expiry of a job that has not ended.
  unfoldable pub expire_live : Store → Authority → Clock → Job → Result JobError Job × Store
  expire_live store authority clock job =
      after_checks store
        (do
          now ← instant (clock 0) JobError.naive_time
          validate_schedule_time job expire (clock 0) none
          replacement ← model_validate submission_hash (expired job now)
          ok (job, replacement))
        (schedule store authority expire none (later 1 clock))

  -- A job that has ended is returned as it is.
  unfoldable pub expire_job :
      Store → Worker → Authority → String → Clock → Result JobError Job × Store
  expire_job store worker authority job_id clock =
      after_checks store (do job ← load store worker job_id; authority.initial; ok job)
        λ job.
          if is_terminal job.status
          then (authority.guard 0 >> ok job, store)
          else expire_live store authority clock job
