-- ===== src/Jobs/Rules.antt =====
-- What the validators of job changes guarantee.
use oria.Base.{ℕ, suc, ◌≤◌, ◌≡◌, refl, ◌≢◌, true, false, Option, none, some, ok, Reading, arith}
use oria.Jobs.{
  running, Job, is_active, is_terminal, with_mutable_fields, validate_job_update,
  validate_transition,
}
use oria.Jobs.Lease.{
  LeaseOperation, claim, heartbeat, checkpoint, finish, JobLeaseToken, Namespace, claim_rejected,
  held_change, lease_token, operation_change, validate_lease, validate_claim, validate_lease_change,
  with_allowed_fields,
}
use oria.Jobs.Schedule.{
  ScheduleOperation, validate_schedule_time, validate_schedule_change, schedule_result,
  with_scheduled_fields,
}

-- What every compare-and-set write keeps, whoever makes it.
pub record Evolves (expected replacement : Job) : Type 0 where
  pub revision_next : replacement.revision ≡ suc expected.revision
  pub time_forward : expected.updated_at ≤ replacement.updated_at
  pub epoch_forward : expected.lease_epoch ≤ replacement.lease_epoch
  pub attempt_forward : expected.attempt ≤ replacement.attempt
  pub bindings_kept : replacement ≡ with_mutable_fields expected replacement
  pub cancel_kept : expected.cancel_requested ≡ true → replacement.cancel_requested ≡ true

pub validate_job_update-Evolves : (e r : Job) → validate_job_update e r ≡ ok tt → Evolves e r
unfolding validate_job_update
validate_job_update-Evolves e r h = ground arith

pub validate_transition-Evolves : (e r : Job) → validate_transition e r ≡ ok tt → Evolves e r
unfolding validate_transition
validate_transition-Evolves e r h =
    let u : validate_job_update e r ≡ ok tt = ground arith in validate_job_update-Evolves e r u

pub validate_transition-live :
    (e r : Job) → validate_transition e r ≡ ok tt → is_terminal e.status ≡ false
unfolding validate_transition
validate_transition-live e r h = ground arith

module _ (checkpoint_ns : Namespace) where
  -- The three checks of a change under a lease, each for itself.
  pub lease_change-parts :
      (e r : Job) (o : LeaseOperation) (t : Option JobLeaseToken)
      → validate_lease_change checkpoint_ns e r o t ≡ ok tt
      → (validate_job_update e r ≡ ok tt)
        × (operation_change checkpoint_ns e r o t ≡ ok tt)
        × (r ≡ with_allowed_fields o e r)
  unfolding validate_lease_change
  lease_change-parts e r o t h = ground arith

  -- A claim is of a claimable row and sets the fields of a claim; any other operation presents a
  -- token that the row honours at the time of the write, and meets the condition of its branch.
  pub operation_change-claim :
      (e r : Job) (t : Option JobLeaseToken)
      → operation_change checkpoint_ns e r claim t ≡ ok tt
      → (validate_claim e (Reading.aware r.updated_at) ≡ ok tt) × (claim_rejected e r ≡ false)
  unfolding operation_change
  operation_change-claim e r t h = ground arith

  pub operation_change-held :
      (e r : Job) (o : LeaseOperation) (t : Option JobLeaseToken)
      → o ≢ claim
      → operation_change checkpoint_ns e r o t ≡ ok tt
      → (token : JobLeaseToken) × (t ≡ some token)
        × (validate_lease e token (Reading.aware r.updated_at) ≡ ok tt)
        × (held_change checkpoint_ns e r o token ≡ ok tt)
  unfolding operation_change
  operation_change-held e r claim t n h = absurd (n refl)
  operation_change-held e r heartbeat none n h = cc
  operation_change-held e r heartbeat (some t) n h = (t, refl, ground arith, ground arith)
  operation_change-held e r checkpoint none n h = cc
  operation_change-held e r checkpoint (some t) n h = (t, refl, ground arith, ground arith)
  operation_change-held e r finish none n h = cc
  operation_change-held e r finish (some t) n h = (t, refl, ground arith, ground arith)

pub schedule_change-parts :
    (e r : Job) (o : ScheduleOperation) (t : Option JobLeaseToken) (now : Reading)
    → validate_schedule_change e r o t now ≡ ok tt
    → (at : ℕ) × (now ≡ Reading.aware at)
      × (validate_job_update e r ≡ ok tt)
      × (validate_schedule_time e o now t ≡ ok tt)
      × (schedule_result e r o at ≡ ok tt)
      × (r ≡ with_scheduled_fields o e r)
unfolding validate_schedule_change
schedule_change-parts e r o t Reading.naive h = ground arith
schedule_change-parts e r o t (Reading.aware at) h =
    (at, refl, ground arith, ground arith, ground arith, ground arith)

-- A token is honoured only by the row whose epoch it names.
pub validate_lease-epoch :
    (j : Job) (t : JobLeaseToken) (now : Reading)
    → validate_lease j t now ≡ ok tt
    → (t.epoch ≡ j.lease_epoch) × (is_active j.status ≡ true) × (j.lease_owner ≡ some t.owner)
unfolding validate_lease lease_token
validate_lease-epoch j t now h = ground arith

lease_token-live :
    (j : Job) (t : JobLeaseToken) → lease_token j ≡ ok t → is_terminal j.status ≡ false
unfolding lease_token
lease_token-live j t h = ground arith

validate_lease-live :
    (j : Job) (t : JobLeaseToken) (now : Reading)
    → validate_lease j t now ≡ ok tt
    → is_terminal j.status ≡ false
validate_lease-live j t now h = let (_, a, _) = validate_lease-epoch j t now h in ground arith

validate_claim-live :
    (j : Job) (now : Reading) → validate_claim j now ≡ ok tt → is_terminal j.status ≡ false
unfolding validate_claim
validate_claim-live j now h = ground arith

pub operation_change-live :
    (ns : Namespace) (e r : Job) (o : LeaseOperation) (t : Option JobLeaseToken)
    → operation_change ns e r o t ≡ ok tt
    → is_terminal e.status ≡ false
operation_change-live ns e r claim t h =
    validate_claim-live e _ (operation_change-claim ns e r t h).0
operation_change-live ns e r heartbeat t h =
    let (k, _, v, _) = operation_change-held ns e r heartbeat t (λ q. cc) h in
    validate_lease-live e k _ v
operation_change-live ns e r checkpoint t h =
    let (k, _, v, _) = operation_change-held ns e r checkpoint t (λ q. cc) h in
    validate_lease-live e k _ v
operation_change-live ns e r finish t h =
    let (k, _, v, _) = operation_change-held ns e r finish t (λ q. cc) h in
    validate_lease-live e k _ v

pub schedule_time-live :
    (e : Job) (o : ScheduleOperation) (now : Reading) (t : Option JobLeaseToken)
    → validate_schedule_time e o now t ≡ ok tt
    → is_terminal e.status ≡ false
unfolding validate_schedule_time
schedule_time-live e o now t h = ground arith

-- A claim runs the job under the next epoch.
pub claim-epoch :
    (ns : Namespace) (e r : Job) (t : Option JobLeaseToken)
    → validate_lease_change ns e r claim t ≡ ok tt
    → (r.lease_epoch ≡ suc e.lease_epoch) × (r.status ≡ running)
unfolding claim_rejected
claim-epoch ns e r t h =
    let (_, change, _) = lease_change-parts ns e r claim t h in
    let (_, made) = operation_change-claim ns e r t change in (ground arith, ground arith)
