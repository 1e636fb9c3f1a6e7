-- ===== src/Jobs/Tests.antt =====
-- Jobs at concrete values: the theorems' witnesses, and runs of the operations.
use oria.Base.{
  ℕ, suc, String, ◌≡◌, refl, ◌≢◌, false, none, some, [], ◌∷◌, ok, err, Reading, arith, find,
  String_discrete, ℕ_discrete, replace_where,
}
use oria.Jobs.{
  Status, queued, running, succeeded, Job, Job-discrete, JobSubmission, JobError, campaign,
  merchant, is_terminal, model_validate, validate_job_update,
}
use oria.Jobs.Lease.{
  claim, JobLeaseToken, Token-discrete, Namespace, validate_lease, validate_claim,
  validate_lease_change, operation_change, claim_rejected, lease_token,
}
use oria.Jobs.Repository.{
  Store, Guard, Clock, has_id, update_where, replace_row, replace_leased, fresh_row, stale_row,
  append_event,
}
use oria.Jobs.Worker.{Worker, Authority, claimed, claim_job, load, update}
use oria.Jobs.EventLog.{IsLogged}
use oria.Jobs.History.{Call, leases, call, run, run-IsLogged, run-Forward}
use oria.Jobs.Forward.{Forward}
use oria.Jobs.Fencing.{run_ended, claim_fences, second_write_refused}
use oria.Jobs.Progress.{claimed-accepted}
use oria.Jobs.Checkpoint.{Saver, Snapshot, lineage, ancestor, Descends, child}
use oria.Jobs.Lineage.{lineage-Descends, Descends-lineage}

abbrev hash : JobSubmission → String
hash _ = "digest"

abbrev namespace : Namespace
namespace _ _ = "ns"

abbrev body : JobSubmission
body = record {
  session_id = "session";
  spec = campaign (record {
    categories = "food" ∷ [];
    cities = "city" ∷ [];
    enrollment_mode = merchant;
    max_candidates = 10;
  });
}

-- A queued job, created at time 10 with its deadline at time 1000.
abbrev fresh : Job
fresh = record {
  tenant_id = "tenant";
  job_id = "job";
  session_id = "session";
  thread_id = "thread";
  run_id = "run";
  requester_subject_id = "user";
  requester_issuer = "issuer";
  requester_external_subject = "subject";
  submission = body;
  request_hash = "digest";
  idempotency_key = "key";
  status = queued;
  revision = 0;
  attempt = 0;
  max_attempts = 3;
  lease_owner = none;
  lease_epoch = 0;
  lease_expires_at = none;
  heartbeat_at = none;
  retry_at = none;
  timeout_at = 1000;
  cancel_requested = false;
  webhook_id = none;
  accepted_checkpoint_ns = none;
  accepted_checkpoint_id = none;
  created_at = 10;
  updated_at = 10;
}

abbrev worker : Worker
worker = record { tenant_id = "tenant"; owner = "worker"; duration = 30 }

abbrev granted : Authority
granted = record { initial = ok tt; guard = λ _. ok tt; final = ok tt }

abbrev passing : Guard
passing _ = ok tt

abbrev at_20 : Clock
at_20 _ = Reading.aware 20

abbrev taken : Job
taken = record fresh {
  status = running;
  revision = 1;
  attempt = 1;
  lease_epoch = 1;
  lease_owner = some "worker";
  heartbeat_at = some 20;
  lease_expires_at = some 50;
  updated_at = 20;
}

abbrev ended : Job
ended = record fresh { status = succeeded; revision = 2; attempt = 1; lease_epoch = 1 }

abbrev store_of : Job → Store
store_of job = record {
  rows = job ∷ [];
  events =
      record {
        tenant_id = "tenant";
        job_id = "job";
        sequence = 0;
        status = job.status;
        created_at = job.updated_at;
      }
      ∷ [];
}

abbrev claiming : Call
claiming = leases fresh taken passing claim none at_20

-- What a run of the table's operations computes through.
everything : Unit {0}
unfolding claim_job load claimed update model_validate validate_claim replace_leased
    validate_lease_change validate_job_update operation_change claim_rejected replace_row
    update_where replace_where fresh_row append_event stale_row String_discrete ℕ_discrete
    Job-discrete validate_lease lease_token Token-discrete oria.Jobs.Repository.read
everything = tt

claim_runs : claim_job hash namespace (store_of fresh) worker granted "job" at_20 ≡ (
  ok taken,
  record {
    rows = taken ∷ [];
    events =
        record {
          tenant_id = "tenant";
          job_id = "job";
          sequence = 1;
          status = running;
          created_at = 20;
        }
        ∷ (store_of fresh).events;
  },
)
unfolding everything
claim_runs = refl

-- A token of epoch 0, before the first claim.
abbrev stale : JobLeaseToken
stale = record { tenant_id = "tenant"; job_id = "job"; owner = "other"; epoch = 0 }

fresh_in_store : find (has_id "tenant" "job") (store_of fresh).rows ≡ some fresh
unfolding everything
fresh_in_store = refl

claim_commits : (call hash namespace (store_of fresh) claiming).0 ≡ ok taken
unfolding everything call
claim_commits = refl

taken_in_store :
    find (has_id "tenant" "job") (run hash namespace (store_of fresh) (claiming ∷ [])).rows
    ≡ some taken
unfolding everything call run
taken_in_store = refl

claim_fences_example : validate_lease taken stale (Reading.aware 25) ≢ ok tt
claim_fences_example =
    claim_fences hash namespace (store_of fresh) fresh taken passing at_20 [] stale taken
      (Reading.aware 25) fresh_in_store claim_commits (omega arith) taken_in_store

store-IsLogged : IsLogged (store_of fresh)
unfolding everything
store-IsLogged = record {
  distinct = (tt, tt);
  trails = ((refl, refl, refl, tt), tt);
  owned = (refl, tt);
}

second_write_refused_example :
    let s' = (call hash namespace (store_of fresh) claiming).1 in
    (x : JobError) × (call hash namespace s' claiming ≡ (err x, s'))
second_write_refused_example =
    second_write_refused hash namespace (store_of fresh) fresh taken taken passing passing claim
      claim none none at_20 at_20 store-IsLogged claim_commits

run-IsLogged_example : IsLogged (run hash namespace (store_of fresh) (claiming ∷ claiming ∷ []))
run-IsLogged_example =
    run-IsLogged hash namespace (store_of fresh) (claiming ∷ claiming ∷ []) store-IsLogged

ended_in_store : find (has_id "tenant" "job") (store_of ended).rows ≡ some ended
unfolding everything
ended_in_store = refl

run_ended_example :
    find (has_id "tenant" "job") (run hash namespace (store_of ended) (claiming ∷ [])).rows
    ≡ some ended
run_ended_example =
    run_ended hash namespace (store_of ended) (claiming ∷ []) "tenant" "job" ended ended_in_store
      refl

run-Forward_example : Forward (store_of fresh) (run hash namespace (store_of fresh) (claiming ∷ []))
run-Forward_example = run-Forward hash namespace (store_of fresh) (claiming ∷ [])

claimed-accepted_example :
    (model_validate hash (claimed worker fresh 20) ≡ ok (claimed worker fresh 20))
    × (validate_lease_change namespace fresh (claimed worker fresh 20) claim none ≡ ok tt)
unfolding everything
claimed-accepted_example = claimed-accepted hash namespace worker fresh 20 (omega arith) refl refl

-- `c2` is the child of `c1`.
abbrev snapshot : Snapshot
snapshot = record { parent = some ("ns", "c1") }

abbrev saver : Saver
saver _ _ = some snapshot

lineage_found : lineage saver "ns" "c1" passing 256 snapshot ≡ ok tt
unfolding lineage ancestor String_discrete
lineage_found = refl

lineage-Descends_example : Descends saver "ns" "c1" 256 snapshot
lineage-Descends_example = lineage-Descends saver "ns" "c1" passing 256 snapshot lineage_found

Descends-lineage_example : lineage saver "ns" "c1" passing 256 snapshot ≡ ok tt
Descends-lineage_example =
    Descends-lineage saver "ns" "c1" passing 256 snapshot (λ k. refl) (descent 255)
  where
    descent : (n : ℕ) → Descends saver "ns" "c1" (suc n) snapshot
    descent n = child snapshot refl
