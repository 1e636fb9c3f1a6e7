-- ===== src/Jobs.antt =====
-- src/oria/core/jobs.py: durable job values, their validation and the transitions of the API.
-- Field patterns of identifiers are not modelled. `schedule_policy` has one value and is left out.
pub mod Lease
pub mod Schedule
pub mod Repository
pub mod Worker
pub mod Admission
pub mod Checkpoint
pub mod Lineage
pub mod Rules
pub mod Transaction
pub mod Forward
pub mod EventLog
pub mod History
pub mod Fencing
pub mod Progress
mod Tests
use oria.Base.{
  ℕ, suc, ◌+◌, ◌≤◌, ◌<◌, max, String, ◌≡◌, Bool, true, false, not, ◌&&◌, ◌||◌, Option, none, some,
  List, [], ◌∷◌, Result, ok, err, ◌>>=◌, ◌>>◌, raise_if, ltb, leb, ◌==◌, is, is_none, is_some,
  String_discrete, ℕ_discrete, if◌then◌else◌,
}

pub data Status : Type 0 where
  queued running waiting_approval waiting_event retry_scheduled : Status
  cancellation_requested cancelled succeeded failed : Status

pub data EnrollmentMode : Type 0 where
  merchant auto hybrid : EnrollmentMode

pub data Metric : Type 0 where
  impressions visits enrollments confirmations redemptions : Metric
  visit_rate enrollment_rate confirmation_rate redemption_rate : Metric

pub record CampaignJobSpec : Type 0 where
  pub categories : List String
  pub cities : List String
  pub enrollment_mode : EnrollmentMode
  pub max_candidates : ℕ

-- Dates are day numbers.
pub record AttributionJobSpec : Type 0 where
  pub start_date : ℕ
  pub end_date : ℕ
  pub metric : Metric
  pub region : Option String
  pub category : Option String

pub data JobSpec : Type 0 where
  campaign : CampaignJobSpec → JobSpec
  attribution : AttributionJobSpec → JobSpec

pub record JobSubmission : Type 0 where
  pub session_id : String
  pub spec : JobSpec

pub record Job : Type 0 where
  pub tenant_id : String
  pub job_id : String
  pub session_id : String
  pub thread_id : String
  pub run_id : String
  pub requester_subject_id : String
  pub requester_issuer : String
  pub requester_external_subject : String
  pub submission : JobSubmission
  pub request_hash : String
  pub idempotency_key : String
  pub status : Status
  pub revision : ℕ
  pub attempt : ℕ
  pub max_attempts : ℕ
  pub lease_owner : Option String
  pub lease_epoch : ℕ
  pub lease_expires_at : Option ℕ
  pub heartbeat_at : Option ℕ
  pub retry_at : Option ℕ
  pub timeout_at : ℕ
  pub cancel_requested : Bool
  pub webhook_id : Option String
  pub accepted_checkpoint_ns : Option String
  pub accepted_checkpoint_id : Option String
  pub created_at : ℕ
  pub updated_at : ℕ

Submission-discrete : Discrete JobSubmission
Submission-discrete = hlevel (String_discrete, ℕ_discrete)

unfoldable pub Job-discrete : Discrete Job
unfolding Submission-discrete
Job-discrete = hlevel (String_discrete, ℕ_discrete, Submission-discrete)

-- The `ValueError` and `JobConflict` raises, by what they report.
pub data JobError : Type 0 where
  invalid_fields snapshot_mismatch invalid_timestamps attempt_budget_exceeded : JobError
  lease_required lease_retained cancellation_unrequested retry_mismatch : JobError
  incomplete_checkpoint waiting_without_checkpoint naive_time : JobError
  invalid_revision time_moved_backwards binding_changed attempt_moved_backwards : JobError
  cancellation_cleared invalid_transition retry_release_unchecked : JobError
  continuation_changed_attempt attempt_advanced_unclaimed : JobError
  no_active_lease lease_invalid not_claimable invalid_claim token_required : JobError
  invalid_heartbeat invalid_checkpoint invalid_completion unrelated_fields_changed : JobError
  not_schedulable retry_exhausted retry_unavailable not_expired invalid_retry : JobError
  invalid_release invalid_expiry : JobError
  revision_changed not_executable new_job_not_queued key_content_conflict : JobError
  lease_expired_before_submission already_finished checkpoint_unavailable : JobError
  not_descendant lineage_unavailable lineage_too_long cancelled_execution : JobError
  saver_required invalid_delay : JobError
  unavailable denied : JobError

-- `active` of `valid_state`: the statuses that hold a lease.
abbrev pub is_active : Status → Bool
is_active running = true
is_active cancellation_requested = true
is_active _ = false

-- `TERMINAL_JOB_STATUSES`
abbrev pub is_terminal : Status → Bool
is_terminal cancelled = true
is_terminal succeeded = true
is_terminal failed = true
is_terminal _ = false

abbrev pub is_waiting : Status → Bool
is_waiting waiting_approval = true
is_waiting waiting_event = true
is_waiting _ = false

abbrev pub is_retry_scheduled : Status → Bool
is_retry_scheduled retry_scheduled = true
is_retry_scheduled _ = false

abbrev pub is_running : Status → Bool
is_running running = true
is_running _ = false

abbrev pub is_queued : Status → Bool
is_queued queued = true
is_queued _ = false

abbrev pub is_cancellation_requested : Status → Bool
is_cancellation_requested cancellation_requested = true
is_cancellation_requested _ = false

abbrev pub same_bool : Bool → Bool → Bool
same_bool true b = b
same_bool false b = not b

-- The condition of "active job requires a current lease", negated.
abbrev pub lease_current : Option String → Option ℕ → Option ℕ → ℕ → ℕ → Bool
lease_current (some _) (some expires) (some beat) epoch attempt =
    leb 1 epoch && leb 1 attempt && ltb beat expires
lease_current _ _ _ _ _ = false

-- `Job.model_validate`, for a job whose hash function is `submission_hash`.
unfoldable pub model_validate : (JobSubmission → String) → Job → Result JobError Job
model_validate submission_hash self = do
  raise_if (not (leb 1 self.max_attempts && leb self.max_attempts 10)) invalid_fields
  raise_if
      (not (is (String_discrete self.submission.session_id self.session_id))
        || not (is (String_discrete (submission_hash self.submission) self.request_hash)))
      snapshot_mismatch
  raise_if (ltb self.updated_at self.created_at || leb self.timeout_at self.created_at)
      invalid_timestamps
  raise_if (ltb self.max_attempts self.attempt) attempt_budget_exceeded
  raise_if
      (is_active self.status
        && not (
            lease_current self.lease_owner self.lease_expires_at self.heartbeat_at self.lease_epoch
              self.attempt))
      lease_required
  raise_if
      (not (is_active self.status)
        && (is_some self.lease_owner || is_some self.lease_expires_at || is_some self.heartbeat_at))
      lease_retained
  raise_if (is_cancellation_requested self.status && not self.cancel_requested)
      cancellation_unrequested
  raise_if (not (same_bool (is_retry_scheduled self.status) (is_some self.retry_at))) retry_mismatch
  raise_if
      (not (same_bool (is_none self.accepted_checkpoint_ns) (is_none self.accepted_checkpoint_id)))
      incomplete_checkpoint
  raise_if (is_waiting self.status && is_none self.accepted_checkpoint_id)
      waiting_without_checkpoint
  ok self

-- `_TRANSITIONS`
abbrev pub may_follow : Status → Status → Bool
may_follow queued running = true
may_follow queued cancelled = true
may_follow queued failed = true
may_follow running waiting_approval = true
may_follow running waiting_event = true
may_follow running retry_scheduled = true
may_follow running succeeded = true
may_follow running failed = true
may_follow running cancellation_requested = true
may_follow waiting_approval queued = true
may_follow waiting_approval cancelled = true
may_follow waiting_approval failed = true
may_follow waiting_event queued = true
may_follow waiting_event cancelled = true
may_follow waiting_event failed = true
may_follow retry_scheduled queued = true
may_follow retry_scheduled cancelled = true
may_follow retry_scheduled failed = true
may_follow cancellation_requested cancelled = true
may_follow cancellation_requested failed = true
may_follow _ _ = false

-- `expected` with the fields of `_MUTABLE_JOB_FIELDS` taken from `replacement`: the two jobs agree
-- on every other field exactly when `replacement` is this value.
abbrev pub with_mutable_fields : Job → Job → Job
with_mutable_fields expected replacement = record expected {
  status = replacement.status;
  revision = replacement.revision;
  attempt = replacement.attempt;
  lease_owner = replacement.lease_owner;
  lease_epoch = replacement.lease_epoch;
  lease_expires_at = replacement.lease_expires_at;
  heartbeat_at = replacement.heartbeat_at;
  retry_at = replacement.retry_at;
  cancel_requested = replacement.cancel_requested;
  accepted_checkpoint_ns = replacement.accepted_checkpoint_ns;
  accepted_checkpoint_id = replacement.accepted_checkpoint_id;
  updated_at = replacement.updated_at;
}

unfoldable pub validate_job_update : Job → Job → Result JobError (Unit {0})
validate_job_update expected replacement = do
  raise_if (not (replacement.revision == suc expected.revision)) invalid_revision
  raise_if (ltb replacement.updated_at expected.updated_at) time_moved_backwards
  raise_if (not (is (Job-discrete replacement (with_mutable_fields expected replacement))))
      binding_changed
  raise_if
      (ltb replacement.lease_epoch expected.lease_epoch || ltb replacement.attempt expected.attempt)
      attempt_moved_backwards
  raise_if (expected.cancel_requested && not replacement.cancel_requested) cancellation_cleared

unfoldable pub validate_transition : Job → Job → Result JobError (Unit {0})
validate_transition expected replacement = do
  validate_job_update expected replacement
  raise_if (not (may_follow expected.status replacement.status)) invalid_transition
  raise_if (is_retry_scheduled expected.status && is_queued replacement.status)
      retry_release_unchecked
  if is_queued expected.status && is_running replacement.status
      then raise_if
          (not (replacement.attempt == max 1 expected.attempt)
            || not (replacement.lease_epoch == suc expected.lease_epoch))
          continuation_changed_attempt
      else raise_if
          (not (replacement.attempt == expected.attempt)
            || not (replacement.lease_epoch == expected.lease_epoch))
          attempt_advanced_unclaimed
