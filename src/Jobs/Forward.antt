-- ===== src/Jobs/Forward.antt =====
-- The job table only moves forward: what every write keeps of every row.
use oria.Base.{
  find-any, ◌≤◌, String, ◌≡◌, refl, sym, subst, ◌⊎◌, inl, inr, ◌&&◌, ◌||◌, Bool, true, false, some,
  List, Result, arith, is, find, String_discrete, find-replace_where,
}
use oria.Jobs.{Job, JobError, Job-discrete, is_terminal, with_mutable_fields}
use oria.Jobs.Repository.{Store, update_where, has_id, clashes}
use oria.Jobs.Transaction.{Wrote, Inserted}
use oria.Jobs.Rules.{Evolves}

-- A row and a later value of it: the counters do not go back, a cancellation is not taken back,
-- the request is the same, and a job that has ended stays as it is.
pub record Later (j j' : Job) : Type 0 where
  pub epoch_le : j.lease_epoch ≤ j'.lease_epoch
  pub revision_le : j.revision ≤ j'.revision
  pub attempt_le : j.attempt ≤ j'.attempt
  pub cancel_stays : j.cancel_requested ≡ true → j'.cancel_requested ≡ true
  pub request_stays : (j'.submission ≡ j.submission) × (j'.request_hash ≡ j.request_hash)
  pub deadline_stays : (j'.timeout_at ≡ j.timeout_at) × (j'.max_attempts ≡ j.max_attempts)
  pub end_stays : is_terminal j.status ≡ true → j' ≡ j

pub Later-refl : (j : Job) → Later j j
Later-refl j = record {
  epoch_le = omega arith;
  revision_le = omega arith;
  attempt_le = omega arith;
  cancel_stays = λ h. h;
  request_stays = (refl, refl);
  deadline_stays = (refl, refl);
  end_stays = λ _. refl;
}

pub Later-trans : {i j k : Job} → Later i j → Later j k → Later i k
Later-trans {i} {j} {k} a b = record {
  epoch_le = omega arith;
  revision_le = omega arith;
  attempt_le = omega arith;
  cancel_stays = λ h. b.cancel_stays (a.cancel_stays h);
  request_stays = (cc, cc);
  deadline_stays = (cc, cc);
  end_stays = λ h.
      let e = a.end_stays h in
      let f = b.end_stays (subst (λ (x : Job). is_terminal x.status ≡ true) (sym e) h) in cc;
}

pub Evolves-Later :
    (e r : Job) → Evolves e r → is_terminal e.status ≡ false → Later e (with_mutable_fields e r)
Evolves-Later e r v live = record {
  epoch_le = v.epoch_forward;
  revision_le = omega arith;
  attempt_le = v.attempt_forward;
  cancel_stays = v.cancel_kept;
  request_stays = (refl, refl);
  deadline_stays = (refl, refl);
  end_stays = λ h. cc;
}

-- The row of each identity, in a store and in a later one.
abbrev pub Forward : Store → Store → Type 0
Forward s s' =
    (tenant_id job_id : String) (j : Job)
    → find (has_id tenant_id job_id) s.rows ≡ some j
    → (j' : Job) × (find (has_id tenant_id job_id) s'.rows ≡ some j') × Later j j'

pub Forward-refl : (s : Store) → Forward s s
Forward-refl s t i j h = (j, h, Later-refl j)

pub Forward-trans : (s t u : Store) → Forward s t → Forward t u → Forward s u
Forward-trans s t u a b tenant i j h =
    let (j', h', l) = a tenant i j h in
    let (j'', h'', l') = b tenant i j' h' in (j'', h'', Later-trans l l')

-- The UPDATE changes the row that equals `e`, and no other.
pub find-update_where :
    (t i : String) (e r : Job) (rows : List Job) {rows' : List Job} (j : Job)
    → update_where e r rows ≡ some rows'
    → find (has_id t i) rows ≡ some j
    → (j' : Job) × (find (has_id t i) rows' ≡ some j')
      × ((j' ≡ j) ⊎ ((j ≡ e) × (j' ≡ with_mutable_fields e r)))
unfolding update_where
find-update_where t i e r rows j u h =
    find-replace_where (λ row. Job-discrete row e) (λ row. with_mutable_fields row r) (has_id t i)
      refl rows j u h

pub Wrote-Forward :
    (s : Store) (e r : Job) (out : Result JobError Job × Store)
    → Later e (with_mutable_fields e r)
    → Wrote s e r out
    → Forward s out.1
Wrote-Forward s e r out l (rows, events, u, _, made) t i j found =
    let (j', there, which) = find-update_where t i e r s.rows j u found in
    (
      j',
      rw made there,
      elim which [
        | inl same ↦ subst (Later j) (sym same) (Later-refl j)
        | inr (was, now) ↦ rw (was, now) l
      ],
    )

-- Two rows of one identity clash.
apart :
    (vt vi jt ji t i : String) (thread : Bool)
    → (is (String_discrete jt t) && is (String_discrete ji i)) ≡ true
    → ((is (String_discrete jt vt) && is (String_discrete ji vi)) || thread) ≡ false
    → (is (String_discrete vt t) && is (String_discrete vi i)) ≡ false
apart vt vi jt ji t i thread same free = ground arith

pub Inserted-Forward :
    (s : Store) (v : Job) (out : Result JobError Job × Store) → Inserted s v out → Forward s out.1
Inserted-Forward s v out (events, free, _, _, made) t i j found =
    let (hit, clear) = find-any (has_id t i) (clashes v) s.rows found free in
    (
      j,
      rw (made, apart v.tenant_id v.job_id j.tenant_id j.job_id t i _ hit clear) found,
      Later-refl j,
    )
