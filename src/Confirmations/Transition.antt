-- ===== src/Confirmations/Transition.antt =====
-- A transition of the service is the step of the chain, and an answer to the pending task is the only
-- one that is accepted.
use oria.Base.{
  ℕ, String, ◌≡◌, refl, sym, ap, subst, inl, inr, Bool, true, false, not, Option, some, List, [],
  ◌∷◌, map, find, select, All, ok, raise_if, or_raise, is-true, >>=-eq-ok, arith, Bool-cases, ltb,
  ◌∙◌,
}
use oria.Confirmations.{
  pending_confirmation, EnrollmentItem, Task, Task-discrete, ConfirmationError, same_text,
  is_waiting, is_pending, is_item_pending, next_task_version,
}
use oria.Confirmations.Service.{
  Chain, Outcome, status_of, has_task_id, is_only, current_task, or_changed, changes, transition,
}
use oria.Confirmations.Chains.{
  all_waiting, shape, IsAscending, AreDistinct, IsChain, after_pending, step_tasks, step,
  open-cases,
}
use oria.Confirmations.Advance.{
  Avoids, cons_eq, or_changed-found, or_changed-none, later_tasks, find-All, next_task_version-ok,
}
use oria.Confirmations.Answer.{answered, step_eq}
use oria.Confirmations.Changes.{Changed, first_of, changes-Changed}

-- The first pending task.
abbrev pub pending_task : List Task → Option Task
pending_task ts = find (λ (t : Task). is_pending t.status) ts

pub All-after_pending : (P : Task → Type 0) (ts : List Task) → All P ts → All P (after_pending ts)
All-after_pending P [] h = tt
All-after_pending P (t ∷ ts) h = elim (Bool-cases (is_pending t.status)) [
  | inl here ↦ rw here h.1
  | inr past ↦ rw past (All-after_pending P ts h.1)
]

-- What is known of the tasks after the pending one.
pub record After (task : Task) (ts : List Task) : Type 0 where
  pub waits : all_waiting ts ≡ true
  pub ascending : IsAscending ts
  pub avoids : Avoids task.confirmation_task_id ts
  pub distinct : AreDistinct ts

pub pending_task-After :
    (ts : List Task) (task : Task)
    → shape ts ≡ some pending_confirmation
    → IsAscending ts
    → AreDistinct ts
    → pending_task ts ≡ some task
    → After task (after_pending ts)
pending_task-After [] task h up d f = cc
pending_task-After (t ∷ ts) task h up d f = elim (open-cases t.status ts h) [
  | inl (here, later) ↦
      let q : t ≡ task = ground arith in
      rw here (record {
        waits = later;
        ascending = up.1;
        avoids = subst (λ (x : Task). Avoids x.confirmation_task_id ts) q d.0;
        distinct = d.1;
      })
  | inr past ↦
      rw past.not_pending
        (pending_task-After ts task past.open_later up.1 d.1 (rw past.not_pending at f))
]

map-or_changed :
    (task : Task) (outcome : Outcome) (now : ℕ) (item i : EnrollmentItem) (r : List Task)
    (ts : List Task)
    → pending_task ts ≡ some task
    → AreDistinct ts
    → Changed task (after_pending ts) outcome now item i r
    → map (or_changed r) ts ≡ step_tasks outcome now ts
map-or_changed task outcome now item i r [] f d c = refl
map-or_changed task outcome now item i r (t ∷ ts) f d c = elim (Bool-cases (is_pending t.status)) [
  | inl here ↦
      let q : task ≡ t = ground arith in
      let c1 : Changed task ts outcome now item i r = rw here at c in
      let own : or_changed r t ≡ first_of t outcome now =
        subst (λ x. or_changed r x ≡ first_of x outcome now) q (or_changed-found r task c1.own) in
      rw here (cons_eq own c1.later)
  | inr past ↦
      let f1 : pending_task ts ≡ some task = rw past at f in
      let c1 : Changed task (after_pending ts) outcome now item i r = rw past at c in
      let miss =
        find-All (λ (u : Task). same_text u.confirmation_task_id t.confirmation_task_id ≡ false)
          (λ (u : Task). is_pending u.status) ts task d.0 f1 in
      let free =
        All-after_pending
          (λ (u : Task). same_text u.confirmation_task_id t.confirmation_task_id ≡ false) ts d.0 in
      rw past (
        cons_eq (or_changed-none r t (c1.others t.confirmation_task_id miss free))
          (map-or_changed task outcome now item i r ts f1 d.1 c1))
]

pub chain_eq :
    {i i' : EnrollmentItem} {ts ts' : List Task}
    → i ≡ i'
    → ts ≡ ts'
    → ◌≡◌ {A = Chain} (record { item = i; tasks = ts }) (record { item = i'; tasks = ts' })
chain_eq {i} {i'} {ts} {ts'} u v =
    ap (λ x. record { item = x; tasks = ts }) u ∙ ap (λ xs. record { item = i'; tasks = xs }) v

pub transition-step :
    (c c' : Chain) (task : Task) (outcome : Outcome) (now : ℕ)
    → IsChain c
    → c.item.status ≡ pending_confirmation
    → pending_task c.tasks ≡ some task
    → transition c.item c.tasks task outcome now ≡ ok c'
    → c' ≡ step outcome now c
unfolding transition
transition-step c c' task outcome now chain p f h =
    let after =
      pending_task-After c.tasks task (rw p at chain.fits) chain.ascending chain.distinct f in
    let (first, made, h1) = >>=-eq-ok (next_task_version task now (status_of outcome)) _ h in
    let q = next_task_version-ok task now (status_of outcome) first made in
    let (result, changed, h2) =
      >>=-eq-ok
        (changes c.item first (select (λ (t : Task). ltb task.sequence t.sequence) c.tasks) outcome
          now)
        _ h1 in
    let known : changes c.item (first_of task outcome now) (after_pending c.tasks) outcome now
        ≡ ok (result.0, result.1) =
      subst (λ x. changes c.item x (after_pending c.tasks) outcome now ≡ ok result) q
        (subst (λ x. changes c.item first x outcome now ≡ ok result)
          (later_tasks c.tasks task f chain.ascending) changed) in
    let all =
      changes-Changed task (after_pending c.tasks) outcome now c.item result.0 result.1 after.waits
        after.ascending after.avoids after.distinct known in
    let tasks =
      map-or_changed task outcome now c.item result.0 result.1 c.tasks f chain.distinct all in
    let made_chain : record { item = result.0; tasks = map (or_changed result.1) c.tasks } ≡ c' =
      ground arith in
    sym made_chain ∙ chain_eq all.item_is tasks

-- On a chain whose pending task is answered, a transition that does not raise gives the chain in which
-- that task has the status of the answer; a rejection cancels the later tasks, any other answer makes
-- the first later task pending, with its time to live started anew; a rejection and a timeout of the
-- last task reject the item, a confirmation of the last task confirms it; every changed row has the
-- next version and the time of the answer, and nothing else changes.
pub transition_eq :
    (c c' : Chain) (task : Task) (outcome : Outcome) (now : ℕ)
    → IsChain c
    → c.item.status ≡ pending_confirmation
    → pending_task c.tasks ≡ some task
    → transition c.item c.tasks task outcome now ≡ ok c'
    → c' ≡ answered outcome now c
transition_eq c c' task outcome now chain p f h =
    transition-step c c' task outcome now chain p f h ∙ step_eq outcome now c

select-find :
    (p : Task → Bool) (ts : List Task) (x : Task) (xs : List Task)
    → select p ts ≡ x ∷ xs
    → find p ts ≡ some x
select-find p [] x xs h = cc
select-find p (t ∷ ts) x xs h = elim (Bool-cases (p t)) [
  | inl hit ↦ let k = rw hit at h in rw hit (ground arith)
  | inr miss ↦ let k = rw miss at h in rw miss (select-find p ts x xs k)
]

only_one : (task : Task) (found : List Task) → is_only task found ≡ true → found ≡ task ∷ []
only_one task [] h = cc
only_one task (x ∷ []) h = ap (λ y. y ∷ []) (sym (is-true (Task-discrete task x) h))
only_one task (x ∷ y ∷ ys) h = cc

pub current_task-ok :
    (id : String) (item : EnrollmentItem) (ts : List Task) (task : Task)
    → current_task id item ts ≡ ok task
    → (item.status ≡ pending_confirmation)
      × (pending_task ts ≡ some task)
      × (find (has_task_id id) ts ≡ some task)
unfolding current_task
current_task-ok id item ts task h =
    let (_, open_item, h1) =
      >>=-eq-ok (raise_if (not (is_item_pending item.status)) ConfirmationError.item_resolved) _
        h in
    let (requested, found, h2) =
      >>=-eq-ok (or_raise (find (has_task_id id) ts) ConfirmationError.task_unavailable) _ h1 in
    elim (Bool-cases (is_only requested (select (λ (t : Task). is_pending t.status) ts))) [
      | inl alone ↦
          let k = rw alone at h2 in
          let q : requested ≡ task = ground arith in
          let f =
            select-find (λ (t : Task). is_pending t.status) ts requested []
              (only_one requested _ alone) in
          (ground arith, f ∙ ap some q, ground arith)
      | inr other ↦
          let (_, _, bad) =
            >>=-eq-ok (raise_if (is_waiting requested.status) ConfirmationError.not_active) _
              (rw other at h2) in
          absurd (ground arith)
    ]
