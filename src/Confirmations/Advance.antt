-- ===== src/Confirmations/Advance.antt =====
-- The pieces of a transition: cancellation one task at a time, the earliest of later tasks, and the
-- tasks of greater sequence than the pending one.
use oria.Base.{
  ℕ, ◌<◌, String, ◌≡◌, refl, ap, subst, inl, inr, Bool, true, false, not, none, some, List, [], ◌∷◌,
  map, find, select, All, ok, ◌>>=◌, raise_if, is-yes, >>=-eq-ok, arith, Bool-cases, Option-cases,
  ltb, String_discrete, ◌∙◌,
}
use oria.Confirmations.{
  TaskStatus, EnrollmentItem, Task, ConfirmationError, cancelled, same_text, is_waiting, is_pending,
  ItemStatus, with_task_status, with_item_status, next_task_version, next_item_version,
}
use oria.Confirmations.Service.{
  has_task_id, cancel_waiting, earliest, activated, activate, or_changed,
}
use oria.Confirmations.Chains.{all_waiting, IsAscending, AreDistinct, after_pending, cancel_task}

-- No task of the list has the name.
abbrev pub Avoids : String → List Task → Type 0
Avoids id ts = All (λ (u : Task). same_text u.confirmation_task_id id ≡ false) ts

pub same_sym : (a b : String) → same_text a b ≡ false → same_text b a ≡ false
same_sym a b h = ground arith

Avoids-find : (id : String) (ts : List Task) → Avoids id ts → find (has_task_id id) ts ≡ none
Avoids-find id [] h = refl
Avoids-find id (t ∷ ts) h = rw h.0 (Avoids-find id ts h.1)

pub next_task_version-ok :
    (t : Task) (now : ℕ) (s : TaskStatus) (t' : Task)
    → next_task_version t now s ≡ ok t'
    → t' ≡ with_task_status t now s
next_task_version-ok t now s t' h =
    let (_, _, k) =
      >>=-eq-ok (raise_if (ltb now t.updated_at) ConfirmationError.time_backwards) _ h in
    ground arith

pub next_item_version-ok :
    (i : EnrollmentItem) (now : ℕ) (s : ItemStatus) (i' : EnrollmentItem)
    → next_item_version i now s ≡ ok i'
    → i' ≡ with_item_status i now s
next_item_version-ok i now s i' h =
    let (_, _, k) =
      >>=-eq-ok (raise_if (ltb now i.updated_at) ConfirmationError.time_backwards) _ h in
    ground arith

pub activate-ok : (t : Task) (now : ℕ) (t' : Task) → activate t now ≡ ok t' → t' ≡ activated t now
activate-ok t now t' h =
    let (_, _, k) =
      >>=-eq-ok (raise_if (not (is_waiting t.status)) ConfirmationError.next_not_waiting) _ h in
    let (_, _, m) =
      >>=-eq-ok (raise_if (ltb now t.updated_at) ConfirmationError.time_backwards) _ k in
    ground arith

-- The cancellation of waiting tasks, one at a time.
cancel_cons :
    (t : Task) (ts : List Task) (now : ℕ) (changed r : List Task)
    → is_waiting t.status ≡ true
    → cancel_waiting (t ∷ ts) now changed ≡ ok r
    → cancel_waiting ts now (cancel_task now t ∷ changed) ≡ ok r
unfolding cancel_waiting
cancel_cons t ts now changed r w h =
    let h1 : (next_task_version t now cancelled >>= λ n. cancel_waiting ts now (n ∷ changed))
        ≡ ok r =
      rw (w, cancel_waiting) at h in
    let (n, made, h2) = >>=-eq-ok (next_task_version t now cancelled) _ h1 in
    let q = next_task_version-ok t now cancelled n made in rw q at h2

pub cancel-find :
    (id : String) (ts : List Task) (now : ℕ) (changed r : List Task)
    → all_waiting ts ≡ true
    → cancel_waiting ts now changed ≡ ok r
    → Avoids id ts
    → find (has_task_id id) r ≡ find (has_task_id id) changed
unfolding cancel_waiting
cancel-find id [] now changed r w h a = ground arith
cancel-find id (t ∷ ts) now changed r w h a =
    let w1 : is_waiting t.status ≡ true = ground arith in
    let w2 : all_waiting ts ≡ true = ground arith in
    let rest =
      cancel-find id ts now (cancel_task now t ∷ changed) r w2 (cancel_cons t ts now changed r w1 h)
        a.1 in
    rest ∙ (rw a.0 refl)

pub cons_eq : {a b : Task} {xs ys : List Task} → a ≡ b → xs ≡ ys → (a ∷ xs) ≡ (b ∷ ys)
cons_eq {a} {b} {xs} {ys} p q = ap (λ x. x ∷ xs) p ∙ ap (λ zs. b ∷ zs) q

pub or_changed-found :
    (r : List Task) (t : Task) {t' : Task}
    → find (has_task_id t.confirmation_task_id) r ≡ some t'
    → or_changed r t ≡ t'
or_changed-found r t h = rw (h, or_changed) refl

pub or_changed-none :
    (r : List Task) (t : Task)
    → find (has_task_id t.confirmation_task_id) r ≡ none
    → or_changed r t ≡ t
or_changed-none r t h = rw (h, or_changed) refl

pub own_name : (id : String) → same_text id id ≡ true
own_name id = is-yes (String_discrete id id) refl

pub cancel_all :
    (ts : List Task) (now : ℕ) (changed r : List Task)
    → all_waiting ts ≡ true
    → AreDistinct ts
    → cancel_waiting ts now changed ≡ ok r
    → map (or_changed r) ts ≡ map (cancel_task now) ts
cancel_all [] now changed r w d h = refl
cancel_all (t ∷ ts) now changed r w d h =
    let w1 : is_waiting t.status ≡ true = ground arith in
    let w2 : all_waiting ts ≡ true = ground arith in
    let h1 = cancel_cons t ts now changed r w1 h in
    let rest = cancel_all ts now (cancel_task now t ∷ changed) r w2 d.1 h1 in
    let own = cancel-find t.confirmation_task_id ts now (cancel_task now t ∷ changed) r w2 h1 d.0 in
    let found : find (has_task_id t.confirmation_task_id) r ≡ some (cancel_task now t) =
      own ∙ (rw (own_name t.confirmation_task_id) refl) in
    cons_eq (or_changed-found r t found) rest

-- The first of ascending tasks is the earliest.
earliest-All :
    (P : Task → Type 0) (ts : List Task) (t : Task) → All P ts → earliest ts ≡ some t → P t
unfolding earliest
earliest-All P [] t h k = cc
earliest-All P (u ∷ us) t h k = elim (Option-cases (earliest us)) [
  | inl alone ↦ let q : u ≡ t = let k1 = rw alone at k in ground arith in subst P q h.0
  | inr (o, there) ↦
      let rest = earliest-All P us o h.1 there in
      elim (Bool-cases (ltb o.sequence u.sequence)) [
        | inl less ↦
            let q : o ≡ t = let k1 = rw (there, less) at k in ground arith in subst P q rest
        | inr not_less ↦
            let q : u ≡ t = let k1 = rw (there, not_less) at k in ground arith in subst P q h.0
      ]
]

pub earliest_first :
    (t : Task) (ts : List Task)
    → All (λ (u : Task). t.sequence < u.sequence) ts
    → earliest (t ∷ ts) ≡ some t
unfolding earliest
earliest_first t ts h = elim (Option-cases (earliest ts)) [
  | inl alone ↦ rw alone refl
  | inr (o, there) ↦
      let more = earliest-All (λ (u : Task). t.sequence < u.sequence) ts o h there in
      let not_less : ltb o.sequence t.sequence ≡ false = ground arith in rw (there, not_less) refl
]

-- What follows the pending task are the tasks of greater sequence.
select_later :
    (n : ℕ) (ts : List Task)
    → All (λ (u : Task). n < u.sequence) ts
    → select (λ (c : Task). ltb n c.sequence) ts ≡ ts
select_later n [] h = refl
select_later n (t ∷ ts) h =
    let l : ltb n t.sequence ≡ true = let k = h.0 in ground arith in
    rw (l, select_later n ts h.1) refl

pub find-All :
    (P : Task → Type 0) (p : Task → Bool) (ts : List Task) (t : Task)
    → All P ts
    → find p ts ≡ some t
    → P t
find-All P p [] t h f = cc
find-All P p (u ∷ us) t h f = elim (Bool-cases (p u)) [
  | inl hit ↦ let q : u ≡ t = ground arith in subst P q h.0
  | inr miss ↦ find-All P p us t h.1 (ground arith)
]

pub later_tasks :
    (ts : List Task) (task : Task)
    → find (λ (t : Task). is_pending t.status) ts ≡ some task
    → IsAscending ts
    → select (λ (c : Task). ltb task.sequence c.sequence) ts ≡ after_pending ts
later_tasks [] task f h = cc
later_tasks (t ∷ ts) task f h = elim (Bool-cases (is_pending t.status)) [
  | inl here ↦
      let q : t ≡ task = ground arith in
      let not_less : ltb t.sequence t.sequence ≡ false = ground arith in
      let rest : select (λ (c : Task). ltb t.sequence c.sequence) (t ∷ ts) ≡ ts =
        rw not_less (select_later t.sequence ts h.0) in
      rw here (
        subst (λ (x : Task). select (λ (c : Task). ltb x.sequence c.sequence) (t ∷ ts) ≡ ts) q rest)
  | inr past ↦
      let f1 : find (λ (u : Task). is_pending u.status) ts ≡ some task = ground arith in
      let more =
        find-All (λ (u : Task). t.sequence < u.sequence) (λ (u : Task). is_pending u.status) ts task
          h.0 f1 in
      let not_less : ltb task.sequence t.sequence ≡ false = ground arith in
      rw (past, not_less) (later_tasks ts task f1 h.1)
]
