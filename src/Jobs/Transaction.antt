-- ===== src/Jobs/Transaction.antt =====
-- What the transactions of the job table do, by how they end.
use oria.Base.{
  suc, String, ◌≡◌, refl, not, ◌||◌, ◌==◌, raise_if, ◌⊎◌, inl, inr, Bool, false, Option, none, some,
  List, ◌∷◌, Result, ok, err, Reading, arith, Bool-cases, Option-cases, find, any, >>=-eq-ok,
}
use oria.Jobs.{Job, JobSubmission, JobError, is_queued, model_validate, validate_transition}
use oria.Jobs.Lease.{LeaseOperation, JobLeaseToken, Namespace, validate_lease_change}
use oria.Jobs.Schedule.{ScheduleOperation, validate_schedule_change}
use oria.Jobs.Repository.{
  Store, JobEvent, Guard, append_event, update_where, fresh_row, stale_row, replace_row, submit,
  inserted, resubmitted, has_key, clashes, Clock, timed, check_lease_time, replace, replace_leased,
  replace_scheduled, read,
}

-- A transaction that commits a write: the row that equalled `e` is replaced by `r`, and one event
-- of `r` is appended.
abbrev pub Wrote : Store → Job → Job → Result JobError Job × Store → Type 0
Wrote s e r out =
    (rows : List Job) × (events : List JobEvent) × (update_where e r s.rows ≡ some rows)
    × (append_event s.events r ≡ ok events)
    × (out ≡ (ok r, record { rows = rows; events = events }))

pub Result-cases :
    {A : Type 0} (m : Result JobError A) → ((e : JobError) × (m ≡ err e)) ⊎ ((a : A) × (m ≡ ok a))
Result-cases (err e) = inl (e, refl)
Result-cases (ok a) = inr (a, refl)

stale_row-kept :
    (h : JobSubmission → String) (s : Store) (e : Job) (guard : Guard) (idempotent : Bool)
    (a : Job × Store)
    → stale_row h s e guard idempotent ≡ ok a
    → a.1 ≡ s
unfolding stale_row
stale_row-kept h s e guard idempotent a q = ground arith

fresh_row-parts :
    (s : Store) (rows : List Job) (r : Job) (guard : Guard) (before : Result JobError (Unit {0}))
    (a : Job × Store)
    → fresh_row s rows r guard before ≡ ok a
    → (events : List JobEvent) × (append_event s.events r ≡ ok events)
      × (a ≡ (r, record { rows = rows; events = events }))
unfolding fresh_row
fresh_row-parts s rows r guard before a q =
    let (events, there, rest) = >>=-eq-ok (append_event s.events r) _ q in
    (events, there, ground arith)

-- A call that raises, and whose transaction is rolled back.
abbrev pub Refused : Store → Result JobError Job × Store → Type 0
Refused s out = (x : JobError) × (out ≡ (err x, s))

stale_row-strict :
    (h : JobSubmission → String) (s : Store) (e : Job) (guard : Guard)
    → (x : JobError) × (stale_row h s e guard false ≡ err x)
unfolding stale_row
stale_row-strict h s e guard = elim (Result-cases (read h s e.tenant_id e.job_id)) [
  | inl (x, q) ↦ (x, rw q)
  | inr (none, q) ↦ (JobError.revision_changed, rw q)
  | inr (some row, q) ↦ (JobError.revision_changed, rw q)
]

module _ (h : JobSubmission → String) (s : Store) (e r : Job) (guard : Guard)
    (before : Result JobError (Unit {0})) where
  -- Either nothing is written, or the write of `r` over `e` is committed whole.
  pub replace_row-outcome :
      (idempotent : Bool)
      → ((replace_row h s e r guard idempotent before).1 ≡ s)
        ⊎ Wrote s e r (replace_row h s e r guard idempotent before)
  unfolding replace_row
  replace_row-outcome idempotent = elim (Result-cases (guard 0)) [
    | inl (x, q) ↦ inl (rw q)
    | inr (u, q) ↦ elim (Option-cases (update_where e r s.rows)) [
      | inl gone ↦ elim (Result-cases (stale_row h s e guard idempotent)) [
        | inl (x, z) ↦ inl (rw (q, gone, z))
        | inr (a, z) ↦ inl (rw (q, gone, z) (stale_row-kept h s e guard idempotent a z))
      ]
      | inr (rows, there) ↦ elim (Result-cases (fresh_row s rows r guard before)) [
        | inl (x, z) ↦ inl (rw (q, there, z))
        | inr (a, z) ↦
            let (events, appended, made) = fresh_row-parts s rows r guard before a z in
            inr (rows, events, there, appended, rw (q, there, z, made))
      ]
    ]
  ]

  -- A worker's write is committed whole, or it raises and nothing is written.
  pub replace_row-strict :
      Refused s (replace_row h s e r guard false before)
      ⊎ Wrote s e r (replace_row h s e r guard false before)
  unfolding replace_row
  replace_row-strict = elim (Result-cases (guard 0)) [
    | inl (x, q) ↦ inl (x, rw q)
    | inr (u, q) ↦ elim (Option-cases (update_where e r s.rows)) [
      | inl gone ↦ let (x, z) = stale_row-strict h s e guard in inl (x, rw (q, gone, z))
      | inr (rows, there) ↦ elim (Result-cases (fresh_row s rows r guard before)) [
        | inl (x, z) ↦ inl (x, rw (q, there, z))
        | inr (a, z) ↦
            let (events, appended, made) = fresh_row-parts s rows r guard before a z in
            inr (rows, events, there, appended, rw (q, there, z, made))
      ]
    ]
  ]

model_validate-eq :
    (h : JobSubmission → String) (j : Job) {a : Job} → model_validate h j ≡ ok a → a ≡ j
unfolding model_validate
model_validate-eq h j q = ground arith

module _ (h : JobSubmission → String) (s : Store) (e r : Job) (guard : Guard) where
  -- A write of the API follows the transition table.
  pub replace-outcome :
      (idempotent : Bool)
      → ((replace h s e r guard idempotent).1 ≡ s)
        ⊎ ((validate_transition e r ≡ ok tt) × Wrote s e r (replace h s e r guard idempotent))
  unfolding replace
  replace-outcome idempotent = elim (Result-cases (model_validate h r)) [
    | inl (x, q) ↦ inl (rw q)
    | inr (v, q) ↦ elim (Result-cases (validate_transition e v)) [
      | inl (x, z) ↦ inl (rw (q, z))
      | inr (u, z) ↦ elim (replace_row-outcome h s e r guard (ok tt) idempotent) [
        | inl same ↦ inl (rw (q, z) same)
        | inr w ↦ inr (rw (← model_validate-eq h r q) z, rw (q, z) w)
      ]
    ]
  ]

  pub replace_leased-outcome :
      (ns : Namespace) (o : LeaseOperation) (t : Option JobLeaseToken) (clock : Clock)
      → Refused s (replace_leased h ns s e r guard o t clock)
        ⊎ ((validate_lease_change ns e r o t ≡ ok tt)
            × Wrote s e r (replace_leased h ns s e r guard o t clock))
  unfolding replace_leased
  replace_leased-outcome ns o t clock = elim (Result-cases (model_validate h e)) [
    | inl (x, q) ↦ inl (x, rw q)
    | inr (d, q) ↦ elim (Result-cases (model_validate h r)) [
      | inl (x, z) ↦ inl (x, rw (q, z))
      | inr (v, z) ↦ elim (Result-cases (validate_lease_change ns d v o t)) [
        | inl (x, y) ↦ inl (x, rw (q, z, y))
        | inr (u, y) ↦ elim (replace_row-strict h s e r (fenced o t clock) (fenced o t clock 2)) [
          | inl (x, w) ↦ inl (x, rw (q, z, y) w)
          | inr w ↦
              inr (rw (← model_validate-eq h e q, ← model_validate-eq h r z) y, rw (q, z, y) w)
        ]
      ]
    ]
  ]
    where
      fenced : LeaseOperation → Option JobLeaseToken → Clock → Guard
      fenced o t clock = timed (check_lease_time e r o t) clock guard

  pub replace_scheduled-outcome :
      (o : ScheduleOperation) (t : Option JobLeaseToken) (clock : Clock)
      → Refused s (replace_scheduled h s e r guard o t clock)
        ⊎ ((validate_schedule_change e r o t (clock 0) ≡ ok tt)
            × Wrote s e r (replace_scheduled h s e r guard o t clock))
  unfolding replace_scheduled
  replace_scheduled-outcome o t clock = elim (Result-cases (model_validate h e)) [
    | inl (x, q) ↦ inl (x, rw q)
    | inr (d, q) ↦ elim (Result-cases (model_validate h r)) [
      | inl (x, z) ↦ inl (x, rw (q, z))
      | inr (v, z) ↦ elim (Result-cases (validate_schedule_change e r o t (clock 0))) [
        | inl (x, y) ↦ inl (x, rw (q, z, y))
        | inr (u, y) ↦ elim (replace_row-strict h s e r checked (checked 2)) [
          | inl (x, w) ↦ inl (x, rw (q, z, y) w)
          | inr w ↦ inr (y, rw (q, z, y) w)
        ]
      ]
    ]
  ]
    where
      checked : Guard
      checked =
          timed (λ (now : Reading). validate_schedule_change e r o t now) (λ k. clock (suc k)) guard

-- A committed insertion: the key and the identities are free, and the first event is appended.
abbrev pub Inserted : Store → Job → Result JobError Job × Store → Type 0
Inserted s v out =
    (events : List JobEvent) × (any (clashes v) s.rows ≡ false)
    × (append_event s.events v ≡ ok events)
    × (v.revision ≡ 0)
    × (out ≡ (ok v, record { rows = v ∷ s.rows; events = events }))

inserted-parts :
    (s : Store) (v : Job) (guard : Guard) (a : Job × Store)
    → inserted s v guard ≡ ok a
    → (events : List JobEvent) × (any (clashes v) s.rows ≡ false)
      × (append_event s.events v ≡ ok events)
      × (a ≡ (v, record { rows = v ∷ s.rows; events = events }))
unfolding inserted
inserted-parts s v guard a q = elim (Bool-cases (any (clashes v) s.rows)) [
  | inl taken ↦ absurd (ground arith)
  | inr free ↦
      let (u, _, z) = >>=-eq-ok (raise_if (any (clashes v) s.rows) JobError.unavailable) _ q in
      let (events, there, rest) = >>=-eq-ok (append_event s.events v) _ z in
      (events, free, there, ground arith)
]

resubmitted-kept :
    (h : JobSubmission → String) (s : Store) (v row : Job) (guard : Guard) (a : Job × Store)
    → resubmitted h s v row guard ≡ ok a
    → a.1 ≡ s
unfolding resubmitted
resubmitted-kept h s v row guard a q = ground arith

pub new_job_error : Job → Result JobError (Unit {0})
new_job_error valid =
    raise_if
      (not (is_queued valid.status)
        || not (valid.revision == 0)
        || not (valid.attempt == 0)
        || not (valid.lease_epoch == 0))
      JobError.new_job_not_queued

new_job_error-revision : (v : Job) → new_job_error v ≡ ok tt → v.revision ≡ 0
unfolding new_job_error
new_job_error-revision v q = ground arith

module _ (h : JobSubmission → String) (s : Store) (v : Job) (guard : Guard) where
  pub submit-outcome : ((submit h s v guard).1 ≡ s) ⊎ Inserted s v (submit h s v guard)
  unfolding submit new_job_error
  submit-outcome = elim (Result-cases (model_validate h v)) [
    | inl (x, q) ↦ inl (rw q)
    | inr (d, q) ↦ elim (Result-cases (new_job_error d)) [
      | inl (x, z) ↦ inl (rw (q, z))
      | inr (_, z) ↦ elim (Result-cases (guard 0)) [
        | inl (x, y) ↦ inl (rw (q, z, y))
        | inr (_, y) ↦ elim (Option-cases (find (has_key v) s.rows)) [
          | inl free ↦ elim (Result-cases (inserted s v guard)) [
            | inl (x, w) ↦ inl (rw (q, z, y, free, w))
            | inr (a, w) ↦
                let (events, apart, there, made) = inserted-parts s v guard a w in
                inr (
                  events,
                  apart,
                  there,
                  new_job_error-revision v (rw (← model_validate-eq h v q) z),
                  rw (q, z, y, free, w, made),
                )
          ]
          | inr (row, taken) ↦ elim (Result-cases (resubmitted h s v row guard)) [
            | inl (x, w) ↦ inl (rw (q, z, y, taken, w))
            | inr (a, w) ↦ inl (rw (q, z, y, taken, w) (resubmitted-kept h s v row guard a w))
          ]
        ]
      ]
    ]
  ]
