-- ===== src/Confirmations/Writes.antt =====
-- The guarded UPDATEs of a chain that equals the expected one leave the updated chain.
use oria.Base.{
  suc, String, ◌≡◌, refl, sym, subst, inl, inr, true, false, not, ◌&&◌, ◌||◌, List, [], ◌∷◌, map,
  any, select, length, All, ok, ◌>>=◌, raise_if, is, is-true, >>=-eq-ok, arith, Bool-cases,
  String_discrete, ◌==◌, if◌then◌else◌, ◌∙◌,
}
use oria.Confirmations.{
  EnrollmentItem, Task, Task-discrete, Item-discrete, ConfirmationError, same_text,
}
use oria.Confirmations.Service.{Chain}
use oria.Confirmations.Store.{
  same_tasks, same_chain, same_names, at_version, update_task, write_tasks, update_item, write_item,
  apply_confirmation_chain,
}
use oria.Confirmations.Chains.{AreDistinct}
use oria.Confirmations.Advance.{Avoids, cons_eq, same_sym}
use oria.Confirmations.Transition.{chain_eq}

abbrev written : Task → Task → Task → Task
written existing updated row = if at_version existing updated row then updated else row

update_task-ok :
    (e u : Task) (rows r : List Task)
    → update_task e u rows ≡ ok r
    → (same_text e.confirmation_task_id u.confirmation_task_id ≡ true)
      × ((length (select (at_version e u) rows) == 1) ≡ true)
      × (r ≡ map (written e u) rows)
unfolding update_task
update_task-ok e u rows r h =
    let (_, names, h1) =
      >>=-eq-ok
        (raise_if (not (same_text e.confirmation_task_id u.confirmation_task_id))
          ConfirmationError.identity_immutable)
        _ h in
    let (_, _, h2) =
      >>=-eq-ok
        (raise_if (not (e.created_at == u.created_at) || not (u.version == suc e.version))
          ConfirmationError.lock_conflict)
        _ h1 in
    let (_, one, h3) =
      >>=-eq-ok
        (raise_if (not (length (select (at_version e u) rows) == 1))
          ConfirmationError.lock_conflict)
        _ h2 in
    (ground arith, ground arith, ground arith)

other_name :
    (e u row : Task)
    → same_text row.confirmation_task_id e.confirmation_task_id ≡ false
    → same_text e.confirmation_task_id u.confirmation_task_id ≡ true
    → at_version e u row ≡ false
other_name e u row h k = ground arith

untouched :
    (e u : Task) (rows : List Task)
    → same_text e.confirmation_task_id u.confirmation_task_id ≡ true
    → Avoids e.confirmation_task_id rows
    → (map (written e u) rows ≡ rows) × (length (select (at_version e u) rows) ≡ 0)
untouched e u [] k h = (refl, refl)
untouched e u (row ∷ rows) k h =
    let miss = other_name e u row h.0 k in
    let (rest, few) = untouched e u rows k h.1 in (cons_eq (rw miss refl) rest, rw miss few)

-- The row of a task, at the head of the rows, is the one that is written.
update_task_head :
    (e u : Task) (rows r : List Task)
    → Avoids e.confirmation_task_id rows
    → update_task e u (e ∷ rows) ≡ ok r
    → r ≡ u ∷ rows
update_task_head e u rows r a h =
    let (k, one, made) = update_task-ok e u (e ∷ rows) r h in
    let (rest, few) = untouched e u rows k a in
    elim (Bool-cases (at_version e u e)) [
      | inl hit ↦ made ∙ cons_eq (rw hit refl) rest
      | inr miss ↦ let bad = rw (miss, few) at one in absurd (ground arith)
    ]

-- Writes of other tasks pass a row by.
update_task_past :
    (e u row : Task) (rows r : List Task)
    → same_text row.confirmation_task_id e.confirmation_task_id ≡ false
    → update_task e u (row ∷ rows) ≡ ok r
    → (s : List Task) × (r ≡ row ∷ s) × (update_task e u rows ≡ ok s)
unfolding update_task
update_task_past e u row rows r a h =
    let (k, one, made) = update_task-ok e u (row ∷ rows) r h in
    let miss = other_name e u row a k in
    let (_, names, h1) =
      >>=-eq-ok
        (raise_if (not (same_text e.confirmation_task_id u.confirmation_task_id))
          ConfirmationError.identity_immutable)
        _ h in
    let (_, lock, h2) =
      >>=-eq-ok
        (raise_if (not (e.created_at == u.created_at) || not (u.version == suc e.version))
          ConfirmationError.lock_conflict)
        _ h1 in
    (
      map (written e u) rows,
      made ∙ cons_eq (rw miss refl) refl,
      rw (names, lock, rw miss at one) refl,
    )

write_tasks_past :
    (es us : List Task) (row : Task) (rows r : List Task)
    → All (λ (e : Task). same_text row.confirmation_task_id e.confirmation_task_id ≡ false) es
    → write_tasks es us (row ∷ rows) ≡ ok r
    → (s : List Task) × (r ≡ row ∷ s) × (write_tasks es us rows ≡ ok s)
unfolding write_tasks
write_tasks_past [] [] row rows r a h = (rows, ground arith, refl)
write_tasks_past [] (u ∷ us) row rows r a h = cc
write_tasks_past (e ∷ es) [] row rows r a h = cc
write_tasks_past (e ∷ es) (u ∷ us) row rows r a h = elim (Bool-cases (is (Task-discrete e u))) [
  | inl same ↦
      let (s, made, rest) = write_tasks_past es us row rows r a.1 (rw (same, write_tasks) at h) in
      (s, made, rw (same, write_tasks) rest)
  | inr differ ↦
      let h1 : (update_task e u (row ∷ rows) >>= λ next. write_tasks es us next) ≡ ok r =
        rw (differ, write_tasks) at h in
      let (next, updated, h2) = >>=-eq-ok (update_task e u (row ∷ rows)) _ h1 in
      let (t, q, there) = update_task_past e u row rows next a.0 updated in
      let (s, made, rest) = write_tasks_past es us row t r a.1 (rw q at h2) in
      (s, made, rw (differ, write_tasks, there) rest)
]

flipped :
    (id : String) (ts : List Task)
    → Avoids id ts
    → All (λ (e : Task). same_text id e.confirmation_task_id ≡ false) ts
flipped id [] h = tt
flipped id (t ∷ ts) h = (same_sym t.confirmation_task_id id h.0, flipped id ts h.1)

tail_eq : {a : Task} {xs ys : List Task} → (a ∷ xs) ≡ (a ∷ ys) → xs ≡ ys
tail_eq h = ground arith

write_tasks_eq : (es us r : List Task) → AreDistinct es → write_tasks es us es ≡ ok r → r ≡ us
unfolding write_tasks
write_tasks_eq [] [] r d h = ground arith
write_tasks_eq [] (u ∷ us) r d h = cc
write_tasks_eq (e ∷ es) [] r d h = cc
write_tasks_eq (e ∷ es) (u ∷ us) r d h = elim (Bool-cases (is (Task-discrete e u))) [
  | inl same ↦
      let q = is-true (Task-discrete e u) same in
      let (s, made, rest) =
        write_tasks_past es us e es r (flipped e.confirmation_task_id es d.0)
          (rw (same, write_tasks) at h) in
      made ∙ cons_eq q (write_tasks_eq es us s d.1 rest)
  | inr differ ↦
      let h1 : (update_task e u (e ∷ es) >>= λ next. write_tasks es us next) ≡ ok r =
        rw (differ, write_tasks) at h in
      let (next, updated, h2) = >>=-eq-ok (update_task e u (e ∷ es)) _ h1 in
      let q = update_task_head e u es next d.0 updated in
      let (k, _, _) = update_task-ok e u (e ∷ es) next updated in
      let name = is-true (String_discrete e.confirmation_task_id u.confirmation_task_id) k in
      let apart =
        subst (λ id. All (λ (x : Task). same_text id x.confirmation_task_id ≡ false) es) name
          (flipped e.confirmation_task_id es d.0) in
      let (s, made, rest) = write_tasks_past es us u es r apart (rw q at h2) in
      made ∙ cons_eq refl (write_tasks_eq es us s d.1 rest)
]

same_tasks-eq : (ts us : List Task) → same_tasks ts us ≡ true → ts ≡ us
same_tasks-eq [] [] h = refl
same_tasks-eq [] (u ∷ us) h = cc
same_tasks-eq (t ∷ ts) [] h = cc
same_tasks-eq (t ∷ ts) (u ∷ us) h =
    cons_eq (is-true (Task-discrete t u) (ground arith)) (same_tasks-eq ts us (ground arith))

write_item_eq : (e u r : EnrollmentItem) → write_item e u e ≡ ok r → r ≡ u
unfolding write_item update_item
write_item_eq e u r h = elim (Bool-cases (is (Item-discrete e u))) [
  | inl same ↦
      let k = rw (same, write_item) at h in sym (ground arith) ∙ is-true (Item-discrete e u) same
  | inr differ ↦
      let h1 : update_item e u e ≡ ok r = rw (differ, write_item) at h in
      let (_, _, h2) =
        >>=-eq-ok
          (raise_if (not (same_text e.enrollment_item_id u.enrollment_item_id))
            ConfirmationError.identity_immutable)
          _ h1 in
      let (_, _, h3) =
        >>=-eq-ok
          (raise_if (not (e.created_at == u.created_at) || not (u.version == suc e.version))
            ConfirmationError.lock_conflict)
          _ h2 in
      let (_, _, h4) =
        >>=-eq-ok
          (raise_if
            (not (
              same_text e.tenant_id u.tenant_id
              && same_text e.enrollment_item_id u.enrollment_item_id
              && e.version == e.version))
            ConfirmationError.lock_conflict)
          _ h3 in
      ground arith
]

-- What is committed: the loaded chain was the stored one, and the updated one is stored.
pub apply_chain-ok :
    (store expected updated next : Chain) (tenant_id : String)
    → AreDistinct store.tasks
    → apply_confirmation_chain store tenant_id expected updated ≡ ok next
    → (store ≡ expected) × (next ≡ updated)
unfolding apply_confirmation_chain
apply_chain-ok store expected updated next tenant_id d h =
    let (_, same, h1) =
      >>=-eq-ok (raise_if (not (same_chain store expected)) ConfirmationError.chain_conflict) _ h in
    let item : store.item ≡ expected.item =
      is-true (Item-discrete store.item expected.item) (ground arith) in
    let tasks : store.tasks ≡ expected.tasks =
      same_tasks-eq store.tasks expected.tasks (ground arith) in
    let (_, _, h2) =
      >>=-eq-ok
        (raise_if
          (not (same_text updated.item.tenant_id tenant_id)
            || any (λ (task : Task). not (same_text task.tenant_id tenant_id)) updated.tasks)
          ConfirmationError.cross_tenant)
        _ h1 in
    let (_, _, h3) =
      >>=-eq-ok
        (raise_if (not (same_names expected.tasks updated.tasks))
          ConfirmationError.identity_immutable)
        _ h2 in
    let (ts, written_tasks, h4) =
      >>=-eq-ok (write_tasks expected.tasks updated.tasks store.tasks) _ h3 in
    let (i, written_item, h5) = >>=-eq-ok (write_item expected.item updated.item store.item) _ h4 in
    let t1 : ts ≡ updated.tasks =
      write_tasks_eq store.tasks updated.tasks ts d
        (subst (λ x. write_tasks x updated.tasks store.tasks ≡ ok ts) (sym tasks) written_tasks) in
    let i1 : i ≡ updated.item =
      write_item_eq store.item updated.item i
        (subst (λ x. write_item x updated.item store.item ≡ ok i) (sym item) written_item) in
    let made : record { item = i; tasks = ts } ≡ next = ground arith in
    (chain_eq item tasks, sym made ∙ chain_eq i1 t1)
