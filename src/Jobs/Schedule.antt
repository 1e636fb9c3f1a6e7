-- ===== src/Jobs/Schedule.antt =====
-- src/oria/core/job_scheduling.py: retry, release of a retry, and expiry of a job.
use oria.Base.{
  ℕ, suc, Bool, true, false, not, ◌&&◌, ◌||◌, Option, none, some, Result, ◌>>=◌, ◌>>◌, raise_if,
  or_raise, Reading, instant, ltb, leb, ◌==◌, is, is_none, is_some, if◌then◌else◌,
}
use oria.Jobs.{
  Status, cancelled, failed, Job, Job-discrete, JobError, is_running, is_queued, is_terminal,
  is_retry_scheduled, is_cancellation_requested, validate_job_update,
}
use oria.Jobs.Lease.{JobLeaseToken, validate_lease, lapsed}

pub data ScheduleOperation : Type 0 where
  retry release_retry expire : ScheduleOperation

abbrev pub is_cancelled : Status → Bool
is_cancelled cancelled = true
is_cancelled _ = false

abbrev pub is_failed : Status → Bool
is_failed failed = true
is_failed _ = false

-- `cancelled_owner_expired`
abbrev pub cancelled_owner_expired : Job → ℕ → Bool
cancelled_owner_expired job now =
    is_cancellation_requested job.status
    && job.cancel_requested
    && is_some job.lease_expires_at
    && lapsed job.lease_expires_at now

-- The branches of `validate_schedule_time`, at an instant that the row admits.
unfoldable pub schedule_branch :
    Job → ScheduleOperation → ℕ → Option JobLeaseToken → Result JobError (Unit {0})
schedule_branch job retry now token = do
  held ← or_raise token JobError.token_required
  validate_lease job held (Reading.aware now)
  raise_if (not (is_running job.status) || job.cancel_requested || leb job.max_attempts job.attempt)
      JobError.retry_exhausted
schedule_branch job release_retry now token =
    raise_if
      (not (is_retry_scheduled job.status)
        || job.cancel_requested
        || is_none job.retry_at
        || not (lapsed job.retry_at now)
        || leb job.timeout_at now
        || ltb job.attempt 1
        || leb job.max_attempts job.attempt)
      JobError.retry_unavailable
schedule_branch job expire now token =
    raise_if (ltb now job.timeout_at && not (cancelled_owner_expired job now)) JobError.not_expired

unfoldable pub validate_schedule_time :
    Job → ScheduleOperation → Reading → Option JobLeaseToken → Result JobError (Unit {0})
validate_schedule_time job operation reading token = do
  now ← instant reading JobError.naive_time
  raise_if (ltb now job.updated_at || is_terminal job.status) JobError.not_schedulable
  schedule_branch job operation now token

-- As `Lease.with_allowed_fields`, for the operations of the scheduler.
abbrev pub with_scheduled_fields : ScheduleOperation → Job → Job → Job
with_scheduled_fields release_retry expected replacement = record expected {
  revision = replacement.revision;
  updated_at = replacement.updated_at;
  status = replacement.status;
  retry_at = replacement.retry_at;
  attempt = replacement.attempt;
}
with_scheduled_fields operation expected replacement = record expected {
  revision = replacement.revision;
  updated_at = replacement.updated_at;
  status = replacement.status;
  retry_at = replacement.retry_at;
  lease_owner = replacement.lease_owner;
  lease_expires_at = replacement.lease_expires_at;
  heartbeat_at = replacement.heartbeat_at;
}

-- `now < value < deadline`
abbrev pub between : ℕ → Option ℕ → ℕ → Bool
between now none deadline = false
between now (some t) deadline = ltb now t && ltb t deadline

-- The condition under which each operation refuses its replacement, and the error.
unfoldable pub schedule_result : Job → Job → ScheduleOperation → ℕ → Result JobError (Unit {0})
schedule_result expected replacement retry now =
    raise_if
      (not (is_retry_scheduled replacement.status)
        || not (between now replacement.retry_at expected.timeout_at))
      JobError.invalid_retry
schedule_result expected replacement release_retry now =
    raise_if
      (not (is_queued replacement.status) || not (replacement.attempt == suc expected.attempt))
      JobError.invalid_release
schedule_result expected replacement expire now =
    raise_if
      (not (
        if expected.cancel_requested
        then is_cancelled replacement.status
        else is_failed replacement.status))
      JobError.invalid_expiry

unfoldable pub validate_schedule_change :
    Job → Job → ScheduleOperation → Option JobLeaseToken → Reading → Result JobError (Unit {0})
validate_schedule_change expected replacement operation token reading = do
  validate_job_update expected replacement
  validate_schedule_time expected operation reading token
  now ← instant reading JobError.naive_time
  schedule_result expected replacement operation now
  raise_if
      (not (is (Job-discrete replacement (with_scheduled_fields operation expected replacement))))
      JobError.unrelated_fields_changed
