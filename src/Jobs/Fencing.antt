-- ===== src/Jobs/Fencing.antt =====
-- What a lease protects: epochs fence old owners, a row is written once from one snapshot, and an
-- ended job stays as it is.
use oria.Base.{
  ◌≤◌, String, ◌≡◌, ◌≢◌, ap, subst, inl, inr, true, false, Option, none, some, List, [], ◌∷◌,
  Result, ok, err, Reading, arith, find, All, replace_where-none, All-replace_where_keys,
  find-replace_where_self,
}
use oria.Jobs.{Job, JobSubmission, JobError, Job-discrete, is_terminal, with_mutable_fields}
use oria.Jobs.Lease.{LeaseOperation, claim, JobLeaseToken, Namespace, validate_lease}
use oria.Jobs.Repository.{Store, Guard, Clock, has_id, update_where}
use oria.Jobs.Transaction.{replace_leased-outcome}
use oria.Jobs.Rules.{
  claim-epoch, validate_lease-epoch, lease_change-parts, validate_job_update-Evolves,
}
use oria.Jobs.EventLog.{IsLogged, same_id, same-flip, same_refl}
use oria.Jobs.History.{Call, leases, call, run, run-Forward}

units : (rows : List Job) → All (λ _. Unit {0}) rows
units [] = tt
units (_ ∷ rows) = (tt, units rows)

differs : (e a : Job) → same_id a e ≡ false → a ≢ e
differs e a k q =
    let z = subst (λ x. same_id x e ≡ false) q k in let y = same_refl e.tenant_id e.job_id in cc

module _ (submission_hash : JobSubmission → String) (checkpoint_ns : Namespace) where
  -- A job that has ended is never written again, whatever calls are made.
  pub run_ended :
      (s : Store) (cs : List Call) (tenant_id job_id : String) (j : Job)
      → find (has_id tenant_id job_id) s.rows ≡ some j
      → is_terminal j.status ≡ true
      → find (has_id tenant_id job_id) (run submission_hash checkpoint_ns s cs).rows ≡ some j
  run_ended s cs t i j found ended =
      let (j', there, l) = run-Forward submission_hash checkpoint_ns s cs t i j found in
      rw (← l.end_stays ended) there

  -- Once a claim of a job has been committed, no token of an earlier epoch of that job is honoured
  -- again, whatever calls follow, by whomever, at whatever time.
  pub claim_fences :
      (s : Store) (e r : Job) (guard : Guard) (clock : Clock) (cs : List Call)
      (token : JobLeaseToken) (j : Job) (now : Reading)
      → find (has_id e.tenant_id e.job_id) s.rows ≡ some e
      → (call submission_hash checkpoint_ns s (leases e r guard claim none clock)).0 ≡ ok r
      → token.epoch ≤ e.lease_epoch
      → find
          (has_id e.tenant_id e.job_id)
          (run submission_hash checkpoint_ns s (leases e r guard claim none clock ∷ cs)).rows
        ≡ some j
      → validate_lease j token now ≢ ok tt
  unfolding call run update_where
  claim_fences s e r guard clock cs token j now held claimed old found honoured =
      elim (replace_leased-outcome submission_hash s e r guard checkpoint_ns claim none clock) [
        | inl (x, w) ↦ let q = rw w at claimed in cc
        | inr (valid, (rows, events, u, _, made)) ↦
            let there : find (has_id e.tenant_id e.job_id) rows ≡ some (with_mutable_fields e r) =
              find-replace_where_self (λ a. Job-discrete a e) (λ a. with_mutable_fields a r)
                (has_id e.tenant_id e.job_id) (same_refl e.tenant_id e.job_id)
                (same_refl e.tenant_id e.job_id) s.rows u held in
            let (j', there', l) =
              run-Forward submission_hash checkpoint_ns (record { rows = rows; events = events }) cs
                e.tenant_id e.job_id (with_mutable_fields e r) there in
            let after =
              subst
                (λ (z : Result JobError Job × Store).
                  find (has_id e.tenant_id e.job_id) (run submission_hash checkpoint_ns z.1 cs).rows
                  ≡ some j)
                made found in
            let same : j ≡ j' = cc in
            let (advanced, _) = claim-epoch checkpoint_ns e r none valid in
            let (named, _, _) = validate_lease-epoch j token now honoured in
            omega (arith, ap (λ (k : Job). k.lease_epoch) same)
      ]

  -- Of two writes made from one snapshot, the second is refused and changes nothing, in whatever
  -- operations and by whichever workers they are made.
  pub second_write_refused :
      (s : Store) (e r r' : Job) (g g' : Guard) (o o' : LeaseOperation)
      (t t' : Option JobLeaseToken) (c c' : Clock)
      → IsLogged s
      → (call submission_hash checkpoint_ns s (leases e r g o t c)).0 ≡ ok r
      → let s' = (call submission_hash checkpoint_ns s (leases e r g o t c)).1 in
        (x : JobError) × (call submission_hash checkpoint_ns s' (leases e r' g' o' t' c')
          ≡ (err x, s'))
  unfolding call update_where
  second_write_refused s e r r' g g' o o' t t' c c' l first =
      elim (replace_leased-outcome submission_hash s e r g checkpoint_ns o t c) [
        | inl (x, w) ↦ let q = rw w at first in cc
        | inr (valid, (rows, events, u, _, made)) ↦
            let (update, _, _) = lease_change-parts checkpoint_ns e r o t valid in
            let next = (validate_job_update-Evolves e r update).revision_next in
            let changed : with_mutable_fields e r ≢ e =
              λ q. omega (arith, ap (λ (k : Job). k.revision) q) in
            let gone : All (λ a. a ≢ e) rows =
              All-replace_where_keys same_id (λ a. Job-discrete a e) (λ a. with_mutable_fields a r)
                (λ _. Unit {0}) (λ a. a ≢ e)
                (λ a b. same-flip a.tenant_id a.job_id b.tenant_id b.job_id) (λ _. changed)
                (λ a k _ q. differs e a k q) s.rows u l.distinct (units s.rows) in
            elim (replace_leased-outcome submission_hash (record { rows = rows; events = events }) e
              r' g' checkpoint_ns o' t' c') [
                | inl (x, w) ↦ (x, rw made w)
                | inr (_, (rows', _, u', _, _)) ↦
                    let none_left =
                      replace_where-none same_id (λ a. Job-discrete a e)
                        (λ a. with_mutable_fields a r') rows gone in
                    cc
              ]
      ]
