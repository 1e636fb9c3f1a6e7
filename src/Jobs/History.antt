-- ===== src/Jobs/History.antt =====
-- Any interleaving of requests and workers on the job table. Each call carries the row that its
-- caller has read, which may be stale, and what its guard and clock return.
use oria.Base.{String, ◌≡◌, inl, inr, Bool, false, Option, List, [], ◌∷◌, Result}
use oria.Jobs.{Job, JobSubmission, JobError, is_terminal}
use oria.Jobs.Lease.{LeaseOperation, JobLeaseToken, Namespace}
use oria.Jobs.Schedule.{ScheduleOperation}
use oria.Jobs.Repository.{Store, Guard, Clock, replace, replace_leased, replace_scheduled, submit}
use oria.Jobs.Transaction.{
  Wrote, Inserted, replace-outcome, replace_leased-outcome, replace_scheduled-outcome,
  submit-outcome,
}
use oria.Jobs.Rules.{
  Evolves, validate_transition-Evolves, validate_transition-live, validate_job_update-Evolves,
  lease_change-parts, schedule_change-parts, operation_change-live, schedule_time-live,
}
use oria.Jobs.EventLog.{IsLogged, Wrote-IsLogged, Inserted-IsLogged}
use oria.Jobs.Forward.{
  Evolves-Later, Forward, Forward-refl, Forward-trans, Wrote-Forward, Inserted-Forward,
}

pub data Call : Type 0 where
  submits : Job → Guard → Call
  replaces : Job → Job → Guard → Bool → Call
  leases : Job → Job → Guard → LeaseOperation → Option JobLeaseToken → Clock → Call
  schedules : Job → Job → Guard → ScheduleOperation → Option JobLeaseToken → Clock → Call

module _ (submission_hash : JobSubmission → String) (checkpoint_ns : Namespace) where
  unfoldable pub call : Store → Call → Result JobError Job × Store
  call s (submits v guard) = submit submission_hash s v guard
  call s (replaces e r guard idempotent) = replace submission_hash s e r guard idempotent
  call s (leases e r guard o t clock) =
      replace_leased submission_hash checkpoint_ns s e r guard o t clock
  call s (schedules e r guard o t clock) = replace_scheduled submission_hash s e r guard o t clock

  unfoldable pub run : Store → List Call → Store
  run s [] = s
  run s (c ∷ cs) = run (call s c).1 cs

  -- What a call does: nothing, an insertion, or a write that every validator has let pass.
  pub data Outcome (s : Store) (out : Result JobError Job × Store) : Type 0 where
    unchanged : out.1 ≡ s → Outcome s out
    inserted : (v : Job) → Inserted s v out → Outcome s out
    written :
        (e r : Job) → Evolves e r → is_terminal e.status ≡ false → Wrote s e r out → Outcome s out

  pub call-Outcome : (s : Store) (c : Call) → Outcome s (call s c)
  unfolding call
  call-Outcome s (submits v guard) = elim (submit-outcome submission_hash s v guard) [
    | inl same ↦ unchanged same
    | inr new ↦ inserted v new
  ]
  call-Outcome s (replaces e r guard idempotent) =
      elim (replace-outcome submission_hash s e r guard idempotent) [
        | inl same ↦ unchanged same
        | inr (valid, w) ↦
            written e r (validate_transition-Evolves e r valid) (validate_transition-live e r valid)
              w
      ]
  call-Outcome s (leases e r guard o t clock) =
      elim (replace_leased-outcome submission_hash s e r guard checkpoint_ns o t clock) [
        | inl (x, w) ↦ unchanged (rw w)
        | inr (valid, w) ↦
            let (update, change, _) = lease_change-parts checkpoint_ns e r o t valid in
            written e r (validate_job_update-Evolves e r update)
              (operation_change-live checkpoint_ns e r o t change) w
      ]
  call-Outcome s (schedules e r guard o t clock) =
      elim (replace_scheduled-outcome submission_hash s e r guard o t clock) [
        | inl (x, w) ↦ unchanged (rw w)
        | inr (valid, w) ↦
            let (at, _, update, time, _, _) = schedule_change-parts e r o t (clock 0) valid in
            written e r (validate_job_update-Evolves e r update)
              (schedule_time-live e o (clock 0) t time) w
      ]

  Outcome-Forward :
      (s : Store) (out : Result JobError Job × Store) → Outcome s out → Forward s out.1
  Outcome-Forward s out (unchanged same) = rw same (Forward-refl s)
  Outcome-Forward s out (inserted v w) = Inserted-Forward s v out w
  Outcome-Forward s out (written e r v live w) =
      Wrote-Forward s e r out (Evolves-Later e r v live) w

  -- Whatever calls are made, in whatever order, the table moves forward.
  pub run-Forward : (s : Store) (cs : List Call) → Forward s (run s cs)
  unfolding run
  run-Forward s [] = Forward-refl s
  run-Forward s (c ∷ cs) =
      Forward-trans s (call s c).1 (run (call s c).1 cs)
        (Outcome-Forward s (call s c) (call-Outcome s c)) (run-Forward (call s c).1 cs)

  Outcome-IsLogged :
      (s : Store) (out : Result JobError Job × Store) → Outcome s out → IsLogged s → IsLogged out.1
  Outcome-IsLogged s out (unchanged same) l = rw same l
  Outcome-IsLogged s out (inserted v w) l = Inserted-IsLogged s v out w l
  Outcome-IsLogged s out (written e r v live w) l = Wrote-IsLogged s e r out v w l

  -- In any history of calls the log has, for every job, exactly one event for each revision from
  -- the current one down to 0, and the newest has the row's status and time.
  pub run-IsLogged : (s : Store) (cs : List Call) → IsLogged s → IsLogged (run s cs)
  unfolding run
  run-IsLogged s [] l = l
  run-IsLogged s (c ∷ cs) l =
      run-IsLogged (call s c).1 cs (Outcome-IsLogged s (call s c) (call-Outcome s c) l)
