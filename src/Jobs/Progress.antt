-- ===== src/Jobs/Progress.antt =====
-- Operations whose checks have passed are not refused by the validators of their write.
use oria.Base.{ℕ, ◌≤◌, String, ◌≡◌, refl, Option, none, ok, Reading, arith}
use oria.Jobs.{Job, JobSubmission, model_validate, validate_job_update}
use oria.Jobs.Lease.{
  LeaseOperation, claim, JobLeaseToken, Namespace, validate_claim, validate_lease_change,
  operation_change, claim_rejected, with_allowed_fields,
}
use oria.Jobs.Rules.{Evolves}
use oria.Jobs.Worker.{Worker, claimed}

claimed-model_validate :
    (h : JobSubmission → String) (w : Worker) (j : Job) (now : ℕ)
    → 1 ≤ w.duration
    → model_validate h j ≡ ok j
    → validate_claim j (Reading.aware now) ≡ ok tt
    → model_validate h (claimed w j now) ≡ ok (claimed w j now)
unfolding model_validate validate_claim claimed
claimed-model_validate h w j now d v c = ground arith

Evolves-validate_job_update : (e r : Job) → Evolves e r → validate_job_update e r ≡ ok tt
unfolding validate_job_update
Evolves-validate_job_update e r v = ground arith

lease_change-ok :
    (ns : Namespace) (e r : Job) (o : LeaseOperation) (t : Option JobLeaseToken)
    → Evolves e r
    → operation_change ns e r o t ≡ ok tt
    → r ≡ with_allowed_fields o e r
    → validate_lease_change ns e r o t ≡ ok tt
unfolding validate_lease_change
lease_change-ok ns e r o t v c same = ground (arith, Evolves-validate_job_update e r v)

claimed-Evolves :
    (w : Worker) (j : Job) (now : ℕ)
    → validate_claim j (Reading.aware now) ≡ ok tt
    → Evolves j (claimed w j now)
unfolding validate_claim claimed
claimed-Evolves w j now c = record {
  revision_next = refl;
  time_forward = ground arith;
  epoch_forward = omega arith;
  attempt_forward = ground arith;
  bindings_kept = refl;
  cancel_kept = λ h. h;
}

claimed-operation_change :
    (ns : Namespace) (w : Worker) (j : Job) (now : ℕ)
    → validate_claim j (Reading.aware now) ≡ ok tt
    → operation_change ns j (claimed w j now) claim none ≡ ok tt
unfolding operation_change claim_rejected claimed
claimed-operation_change ns w j now c = ground arith

-- A claim of a claimable row is accepted by every validator of its write, and its result is valid.
pub claimed-accepted :
    (h : JobSubmission → String) (ns : Namespace) (w : Worker) (j : Job) (now : ℕ)
    → 1 ≤ w.duration
    → model_validate h j ≡ ok j
    → validate_claim j (Reading.aware now) ≡ ok tt
    → (model_validate h (claimed w j now) ≡ ok (claimed w j now))
      × (validate_lease_change ns j (claimed w j now) claim none ≡ ok tt)
unfolding claimed
claimed-accepted h ns w j now d v c = (
  claimed-model_validate h w j now d v c,
  lease_change-ok ns j (claimed w j now) claim none (claimed-Evolves w j now c)
      (claimed-operation_change ns w j now c) refl,
)
