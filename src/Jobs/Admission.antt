-- ===== src/Jobs/Admission.antt =====
-- src/oria/api/jobs.py: submission and cancellation by the requester.
-- Identifiers and hashes that the call draws are arguments; identity and policy are an `Authority`.
use oria.Base.{
  ℕ, suc, ◌+◌, ◌*◌, String, Bool, true, false, not, ◌&&◌, Option, none, Result, ok, err, ◌>>=◌,
  ◌>>◌, raise_if, or_raise, Reading, instant, is, String_discrete, if◌then◌else◌,
}
use oria.Jobs.{
  queued, cancellation_requested, cancelled, Job, JobSubmission, JobError, is_terminal, is_running,
  model_validate,
}
use oria.Jobs.Repository.{Store, read, replace, submit, is_cancelling, after_checks}
use oria.Jobs.Worker.{Authority, then_current, second}

-- `JobSession`, as `submit` reads it.
pub record JobSession : Type 0 where
  pub tenant_id : String
  pub session_id : String
  pub requester_subject_id : String
  pub requester_issuer : String
  pub requester_external_subject : String
  pub created_at : ℕ

-- The identifiers and the digest of the idempotency key.
pub record Drawn : Type 0 where
  pub job_id : String
  pub thread_id : String
  pub run_id : String
  pub key_hash : String

abbrev pub day : ℕ
day = 86400 * second

unfoldable pub cancelled_by : Job → ℕ → Job
cancelled_by value now = record value {
  status = (if is_running value.status then cancellation_requested else cancelled);
  cancel_requested = true;
  revision = suc value.revision;
  updated_at = now;
  retry_at = none;
}

unfoldable pub new_job : JobSession → JobSubmission → String → Drawn → ℕ → Job
new_job owner body request_hash drawn now = record {
  tenant_id = owner.tenant_id;
  job_id = drawn.job_id;
  session_id = owner.session_id;
  thread_id = drawn.thread_id;
  run_id = drawn.run_id;
  requester_subject_id = owner.requester_subject_id;
  requester_issuer = owner.requester_issuer;
  requester_external_subject = owner.requester_external_subject;
  submission = body;
  request_hash = request_hash;
  idempotency_key = drawn.key_hash;
  status = queued;
  revision = 0;
  attempt = 0;
  max_attempts = 3;
  lease_owner = none;
  lease_epoch = 0;
  lease_expires_at = none;
  heartbeat_at = none;
  retry_at = none;
  timeout_at = now + day;
  cancel_requested = false;
  webhook_id = none;
  accepted_checkpoint_ns = none;
  accepted_checkpoint_id = none;
  created_at = now;
  updated_at = now;
}

-- `_owned`
abbrev pub is_owned : String → String → String → String → Bool
is_owned tenant_id subject_id owner_tenant owner_subject =
    is (String_discrete owner_tenant tenant_id) && is (String_discrete owner_subject subject_id)

module _ (submission_hash : JobSubmission → String) where
  -- `_read`: the requester's own job, after authorization.
  unfoldable pub read_owned : Store → String → String → String → Authority → Result JobError Job
  read_owned store tenant_id subject_id job_id authority = do
    found ← read submission_hash store tenant_id job_id
    value ← or_raise found JobError.denied
    raise_if (not (is_owned tenant_id subject_id value.tenant_id value.requester_subject_id))
        JobError.denied
    authority.initial
    ok value

  -- The cancellation of a job that is not yet cancelled or ended; the guard has been called once.
  unfoldable pub cancel_live : Store → Authority → Reading → Job → Result JobError Job × Store
  cancel_live store authority now value =
      after_checks store
        (do
          at ← instant now JobError.naive_time
          model_validate submission_hash (cancelled_by value at))
        λ replacement.
          then_current
            (replace submission_hash store value replacement (λ k. authority.guard (suc k)) true)
            authority

  unfoldable pub cancel_job :
      Store → String → String → String → Authority → Reading → Result JobError Job × Store
  cancel_job store tenant_id subject_id job_id authority now =
      after_checks store
        (do
          value ← read_owned store tenant_id subject_id job_id authority
          authority.guard 0
          ok value)
        λ value.
          if is_cancelling value.status
          then (ok value, store)
          else (if is_terminal value.status
              then (err JobError.already_finished, store)
              else cancel_live store authority now value)

  -- `submit`, after the key has been found well formed; `owner` is the session that was read.
  unfoldable pub submit_job :
      Store
      → Option JobSession
      → String
      → String
      → JobSubmission
      → Drawn
      → Authority
      → Reading
      → Result JobError Job × Store
  submit_job store owner tenant_id subject_id body drawn authority now =
      after_checks store
        (do
          session ← or_raise owner JobError.denied
          raise_if
              (not (is_owned tenant_id subject_id session.tenant_id session.requester_subject_id))
              JobError.denied
          at ← instant now JobError.naive_time
          value ←
              model_validate submission_hash (new_job session body (submission_hash body) drawn at)
          authority.initial
          ok value)
        λ value. then_current (submit submission_hash store value authority.guard) authority
