-- ===== src/Jobs/Lease.antt =====
-- src/oria/core/job_leases.py: lease proofs and the Job-row changes that a lease allows.
use oria.Base.{
  ℕ, suc, max, String, Bool, true, false, not, ◌&&◌, ◌||◌, Option, none, some, Result, ok, ◌>>=◌,
  ◌>>◌, raise_if, or_raise, Reading, instant, ltb, leb, ◌==◌, is, is_none, is_some, String_discrete,
  ℕ_discrete, if◌then◌else◌,
}
use oria.Jobs.{
  Status, waiting_approval, waiting_event, cancellation_requested, cancelled, succeeded, failed,
  Job, Job-discrete, JobError, is_active, is_running, is_queued, is_waiting, validate_job_update,
}

pub data LeaseOperation : Type 0 where
  claim heartbeat checkpoint finish : LeaseOperation

pub record JobLeaseToken : Type 0 where
  pub tenant_id : String
  pub job_id : String
  pub owner : String
  pub epoch : ℕ

unfoldable pub Token-discrete : Discrete JobLeaseToken
Token-discrete = hlevel (String_discrete, ℕ_discrete)

-- The text `job:{job_id}:epoch:{epoch}` is a formatted string: `checkpoint_ns` is a parameter.
abbrev pub Namespace : Type 0
Namespace = String → ℕ → String

unfoldable pub lease_token : Job → Result JobError JobLeaseToken
lease_token job = do
  raise_if (not (is_active job.status)) JobError.no_active_lease
  owner ← or_raise job.lease_owner JobError.no_active_lease
  ok (record {
    tenant_id = job.tenant_id;
    job_id = job.job_id;
    owner = owner;
    epoch = job.lease_epoch;
  })

-- `value is None or value <= now`
abbrev pub lapsed : Option ℕ → ℕ → Bool
lapsed none now = true
lapsed (some t) now = leb t now

unfoldable pub validate_lease : Job → JobLeaseToken → Reading → Result JobError (Unit {0})
validate_lease job token reading = do
  now ← instant reading JobError.naive_time
  current ← lease_token job
  raise_if
      (not (is (Token-discrete current token))
        || lapsed job.lease_expires_at now
        || ltb now job.updated_at
        || leb job.timeout_at now)
      JobError.lease_invalid

unfoldable pub validate_claim : Job → Reading → Result JobError (Unit {0})
validate_claim job reading = do
  now ← instant reading JobError.naive_time
  raise_if
      (job.cancel_requested
        || (is_running job.status && leb job.max_attempts job.attempt)
        || ltb now job.updated_at
        || leb job.timeout_at now
        || not (is_queued job.status || is_running job.status)
        || (is_running job.status
            && not (is_some job.lease_expires_at && lapsed job.lease_expires_at now)))
      JobError.not_claimable

-- The attempt that a claim records.
abbrev pub claimed_attempt : Job → ℕ
claimed_attempt job = if is_running job.status then suc job.attempt else max 1 job.attempt

-- `expected` with the fields that an operation may change taken from `replacement`. The two jobs
-- agree on every field outside `allowed` exactly when `replacement` is this value.
abbrev pub with_allowed_fields : LeaseOperation → Job → Job → Job
with_allowed_fields claim expected replacement = record expected {
  revision = replacement.revision;
  updated_at = replacement.updated_at;
  status = replacement.status;
  attempt = replacement.attempt;
  lease_epoch = replacement.lease_epoch;
  lease_owner = replacement.lease_owner;
  heartbeat_at = replacement.heartbeat_at;
  lease_expires_at = replacement.lease_expires_at;
}
with_allowed_fields heartbeat expected replacement = record expected {
  revision = replacement.revision;
  updated_at = replacement.updated_at;
  heartbeat_at = replacement.heartbeat_at;
  lease_expires_at = replacement.lease_expires_at;
}
with_allowed_fields checkpoint expected replacement = record expected {
  revision = replacement.revision;
  updated_at = replacement.updated_at;
  accepted_checkpoint_ns = replacement.accepted_checkpoint_ns;
  accepted_checkpoint_id = replacement.accepted_checkpoint_id;
}
with_allowed_fields finish expected replacement = record expected {
  revision = replacement.revision;
  updated_at = replacement.updated_at;
  status = replacement.status;
  lease_owner = replacement.lease_owner;
  lease_expires_at = replacement.lease_expires_at;
  heartbeat_at = replacement.heartbeat_at;
}

abbrev pub same_time : Option ℕ → ℕ → Bool
same_time none now = false
same_time (some t) now = t == now

abbrev pub same_text : Option String → String → Bool
same_text none s = false
same_text (some t) s = is (String_discrete t s)

abbrev pub after_deadline : Option ℕ → ℕ → Bool
after_deadline none deadline = true
after_deadline (some t) deadline = ltb deadline t

-- `renewed is None or held is None or renewed < held`
abbrev pub shortens : Option ℕ → Option ℕ → Bool
shortens (some renewed) (some held) = ltb renewed held
shortens _ _ = true

-- The statuses that `finish` may write, from a running and from a cancelled execution.
abbrev pub may_finish : Status → Status → Bool
may_finish cancellation_requested cancelled = true
may_finish cancellation_requested failed = true
may_finish cancellation_requested _ = false
may_finish _ succeeded = true
may_finish _ failed = true
may_finish _ waiting_approval = true
may_finish _ waiting_event = true
may_finish _ _ = false

-- The fields that a claim must set.
unfoldable pub claim_rejected : Job → Job → Bool
claim_rejected expected replacement =
    not (is_running replacement.status)
    || not (replacement.attempt == claimed_attempt expected)
    || not (replacement.lease_epoch == suc expected.lease_epoch)
    || not (same_time replacement.heartbeat_at replacement.updated_at)
    || after_deadline replacement.lease_expires_at replacement.timeout_at

unfoldable pub heartbeat_rejected : Job → Job → Bool
heartbeat_rejected expected replacement =
    not (same_time replacement.heartbeat_at replacement.updated_at)
    || shortens replacement.lease_expires_at expected.lease_expires_at
    || after_deadline replacement.lease_expires_at replacement.timeout_at

unfoldable pub checkpoint_rejected : Namespace → Job → Job → JobLeaseToken → Bool
checkpoint_rejected checkpoint_ns expected replacement token =
    not (is_running expected.status)
    || not (same_text replacement.accepted_checkpoint_ns (checkpoint_ns token.job_id token.epoch))
    || is_none replacement.accepted_checkpoint_id

unfoldable pub finish_rejected : Namespace → Job → Job → JobLeaseToken → Bool
finish_rejected checkpoint_ns expected replacement token =
    not (may_finish expected.status replacement.status)
    || (is_waiting replacement.status
        && not
            (same_text replacement.accepted_checkpoint_ns (checkpoint_ns token.job_id token.epoch)))

-- The branches of an operation other than a claim, after its lease has been validated.
unfoldable pub held_change :
    Namespace → Job → Job → LeaseOperation → JobLeaseToken → Result JobError (Unit {0})
held_change checkpoint_ns expected replacement claim token =
    raise_if (claim_rejected expected replacement) JobError.invalid_claim
held_change checkpoint_ns expected replacement heartbeat token =
    raise_if (heartbeat_rejected expected replacement) JobError.invalid_heartbeat
held_change checkpoint_ns expected replacement checkpoint token =
    raise_if (checkpoint_rejected checkpoint_ns expected replacement token)
      JobError.invalid_checkpoint
held_change checkpoint_ns expected replacement finish token =
    raise_if (finish_rejected checkpoint_ns expected replacement token) JobError.invalid_completion

-- A claim validates the row as claimable; any other operation needs a valid token.
unfoldable pub operation_change :
    Namespace → Job → Job → LeaseOperation → Option JobLeaseToken → Result JobError (Unit {0})
operation_change checkpoint_ns expected replacement claim token = do
  validate_claim expected (Reading.aware replacement.updated_at)
  raise_if (claim_rejected expected replacement) JobError.invalid_claim
operation_change checkpoint_ns expected replacement operation token = do
  held ← or_raise token JobError.token_required
  validate_lease expected held (Reading.aware replacement.updated_at)
  held_change checkpoint_ns expected replacement operation held

unfoldable pub validate_lease_change :
    Namespace → Job → Job → LeaseOperation → Option JobLeaseToken → Result JobError (Unit {0})
validate_lease_change checkpoint_ns expected replacement operation token = do
  validate_job_update expected replacement
  operation_change checkpoint_ns expected replacement operation token
  raise_if
      (not (is (Job-discrete replacement (with_allowed_fields operation expected replacement))))
      JobError.unrelated_fields_changed
