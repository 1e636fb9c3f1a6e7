-- ===== src/Dispatch/Fencing.antt =====
-- What a claim of a job does to the dispatches of its earlier owners, and who may dispatch at one time.
use oria.Base.{
  ◌≤◌, String, ◌≡◌, ◌≢◌, refl, none, some, find, List, ◌∷◌, Result, ok, err, Reading, >>-eq-ok,
  passed,
}
use oria.Jobs.{Job, JobSubmission, JobError, is_running, model_validate}
use oria.Jobs.Lease.{claim, Namespace, validate_lease}
use oria.Jobs.Repository.{Store, Guard, Clock, has_id}
use oria.Jobs.History.{leases, call, run}
use oria.Jobs.Fencing.{claim_fences}
use oria.Dispatch.{
  DispatchRequest, fence_checked, job_checked, job_not_running, validate_request,
  validate_dispatch_admission,
}

fence_valid : (m : Result JobError (Unit {0})) → fence_checked m ≡ ok tt → m ≡ ok tt
fence_valid (ok _) h = refl
fence_valid (err e) h = cc

-- What is admitted holds its job's lease.
admitted_lease :
    (submission_hash : JobSubmission → String) (request : DispatchRequest) (job : Job)
    (now : Reading)
    → validate_dispatch_admission submission_hash request job now ≡ ok tt
    → validate_lease job request.fence now ≡ ok tt
unfolding validate_dispatch_admission
admitted_lease submission_hash request job now h =
    let valid = >>-eq-ok (validate_request request) _ h in
    let running = >>-eq-ok (job_checked (model_validate submission_hash job)) _ valid in
    let (_, fenced) = passed _ job_not_running _ running in
    fence_valid (validate_lease job request.fence now) fenced

-- Once a claim of a job has been committed, a dispatch under the fence of an earlier epoch is not
-- admitted, whatever calls follow, on whatever row the receiver then reads, at whatever time.
pub admission_fenced :
    (submission_hash : JobSubmission → String) (checkpoint_ns : Namespace) (s : Store) (e r : Job)
    (guard : Guard) (clock : Clock) (cs : List oria.Jobs.History.Call) (request : DispatchRequest)
    (j : Job) (now : Reading)
    → find (has_id e.tenant_id e.job_id) s.rows ≡ some e
    → (call submission_hash checkpoint_ns s (leases e r guard claim none clock)).0 ≡ ok r
    → request.fence.epoch ≤ e.lease_epoch
    → find
        (has_id e.tenant_id e.job_id)
        (run submission_hash checkpoint_ns s (leases e r guard claim none clock ∷ cs)).rows
      ≡ some j
    → validate_dispatch_admission submission_hash request j now ≢ ok tt
admission_fenced submission_hash checkpoint_ns s e r guard clock cs request j now held claimed old
      found h =
    claim_fences submission_hash checkpoint_ns s e r guard clock cs request.fence j now held claimed
      old found (admitted_lease submission_hash request j now h)
