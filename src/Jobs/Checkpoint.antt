-- ===== src/Jobs/Checkpoint.antt =====
-- src/oria/orchestrator/job_leases.py: publication of an accepted checkpoint under a lease.
-- The checkpoint saver is a parameter: what it holds under a namespace and an identifier.
use oria.Base.{
  ℕ, zero, suc, String, ◌≡◌, Bool, true, false, not, Option, some, Result, ok, err, ◌>>=◌, ◌>>◌,
  raise_if, or_raise, instant, is, String_discrete, if◌then◌else◌,
}
use oria.Jobs.{Job, JobSubmission, JobError, is_running, model_validate}
use oria.Jobs.Lease.{LeaseOperation, JobLeaseToken, Namespace, same_text}
use oria.Jobs.Repository.{Store, Clock, after_checks}
use oria.Jobs.Worker.{Worker, Authority, leased, update, later}

-- A stored checkpoint, and the namespace and identifier that its parent is stored under.
pub record Snapshot : Type 0 where
  pub parent : Option (String × String)

abbrev pub Saver : Type 0
Saver = String → String → Option Snapshot

-- One round of the loop: where the parent stands.
unfoldable pub ancestor : String → String → Snapshot → Result JobError (Bool × String)
ancestor ns accepted value = do
  (parent_ns, parent_id) ← or_raise value.parent JobError.not_descendant
  raise_if (not (is (String_discrete parent_ns ns))) JobError.not_descendant
  ok (is (String_discrete parent_id accepted), parent_id)

-- `for _ in range(256)`: climb from `value` to the accepted checkpoint. `checks` is the guard and
-- the check of the lease in the round with that many rounds left.
unfoldable pub lineage :
    Saver
    → String
    → String
    → (ℕ → Result JobError (Unit {0}))
    → ℕ
    → Snapshot
    → Result JobError (Unit {0})
lineage saver ns accepted checks zero value = err JobError.lineage_too_long
lineage saver ns accepted checks (suc n) value = ancestor ns accepted value >>= λ found.
    if found.0
    then ok tt
    else (checks n
        >> (or_raise (saver ns found.1) JobError.lineage_unavailable >>= λ next.
            lineage saver ns accepted checks n next))

-- `accepted` is an ancestor of the checkpoint, at most `n` parents away, in the namespace.
pub data Descends (saver : Saver) (ns accepted : String) : ℕ → Snapshot → Type 0 where
  child :
      {n : ℕ} (value : Snapshot)
      → value.parent ≡ some (ns, accepted)
      → Descends saver ns accepted (suc n) value
  further :
      {n : ℕ} (value next : Snapshot) (id : String)
      → value.parent ≡ some (ns, id)
      → saver ns id ≡ some next
      → Descends saver ns accepted n next
      → Descends saver ns accepted (suc n) value

pub bound : ℕ
bound = 256

module _ (submission_hash : JobSubmission → String) (checkpoint_ns : Namespace)
    (saver : Saver) where
  -- The checks between the read of the checkpoint and the write; `none` if it is already accepted.
  unfoldable pub admissible :
      Job → String → String → (ℕ → Result JobError (Unit {0})) → Result JobError Bool
  admissible job ns checkpoint_id checks = do
    checks bound
    value ← or_raise (saver ns checkpoint_id) JobError.checkpoint_unavailable
    if same_text job.accepted_checkpoint_ns ns
        then (if same_text job.accepted_checkpoint_id checkpoint_id
            then ok false
            else (or_raise job.accepted_checkpoint_id JobError.not_descendant >>= λ accepted.
                lineage saver ns accepted checks bound value >> ok true))
        else ok true

  unfoldable pub checkpointed : Job → String → String → ℕ → Job
  checkpointed job ns checkpoint_id now = record job {
    revision = suc job.revision;
    updated_at = now;
    accepted_checkpoint_ns = some ns;
    accepted_checkpoint_id = some checkpoint_id;
  }

  unfoldable pub publish_checkpoint :
      Store
      → Worker
      → Authority
      → JobLeaseToken
      → String
      → (ℕ → Result JobError (Unit {0}))
      → Clock
      → Result JobError Job × Store
  publish_checkpoint store worker authority token checkpoint_id checks clock =
      let ns = checkpoint_ns token.job_id token.epoch in
      after_checks store
        (do
          job ← leased submission_hash checkpoint_ns store worker authority token (clock 0)
          raise_if (not (is_running job.status)) JobError.cancelled_execution
          advances ← admissible job ns checkpoint_id checks
          ok (advances, job))
        λ (advances, job).
          if advances
          then (after_checks store
              (instant (clock 1) JobError.naive_time >>= λ now.
                model_validate submission_hash (checkpointed job ns checkpoint_id now))
              λ replacement.
                update submission_hash checkpoint_ns store authority LeaseOperation.checkpoint
                  (some token) (later 2 clock) (job, replacement))
          else (ok job, store)
