-- ===== src/Confirmations/Generation.antt =====
-- The tasks that a policy generates are a chain.
use oria.Base.{
  ℕ, suc, ◌+◌, ◌≤◌, ◌<◌, String, ◌≡◌, refl, true, false, Option, some, List, [], ◌∷◌, All, ok,
  raise_if, Reading, instant, ltb, >>=-eq-ok, arith, ◌==◌, length, sym, ap, ◌∙◌,
}
use oria.Confirmations.{
  SubjectType, TimeoutAction, pending_confirmation, EnrollmentItem, Task, ConfirmationError,
  same_text,
}
use oria.Confirmations.Policy.{new_task, named_subject, generate_from, generate_tasks}
use oria.Confirmations.Chains.{all_waiting, shape, IsAscending, AreDistinct, IsChain}

-- The hash gives different names to the different places of a chain of `n` tasks.
abbrev pub NamesApart : ℕ → (ℕ → SubjectType → String) → Type 0
NamesApart n task_id =
    (i j : ℕ) (s t : SubjectType)
    → 1 ≤ i
    → i < j
    → j ≤ n
    → same_text (task_id j t) (task_id i s) ≡ false

module _ (task_id : ℕ → SubjectType → String) (timeout_action : TimeoutAction)
    (item : EnrollmentItem) (subject_ids : SubjectType → Option String)
    (created_at due_at : ℕ) where
  -- The shape of what the loop gives.
  abbrev From : ℕ → List SubjectType → List Task → Type 0
  From n [] ts = ts ≡ []
  From n (s ∷ steps) ts =
      (id : String) × (rest : List Task) × (ts
        ≡ new_task task_id timeout_action item s id n created_at due_at ∷ rest)
      × From (suc n) steps rest

  generated :
      (n : ℕ) (steps : List SubjectType) (ts : List Task)
      → generate_from task_id timeout_action item subject_ids created_at due_at n steps ≡ ok ts
      → From n steps ts
  unfolding generate_from
  generated n [] ts h = ground arith
  generated n (s ∷ steps) ts h =
      let (id, _, h1) = >>=-eq-ok (named_subject (subject_ids s)) _ h in
      let (_, _, h2) =
        >>=-eq-ok (raise_if (ltb due_at created_at) ConfirmationError.time_backwards) _ h1 in
      let (rest, more, h3) =
        >>=-eq-ok
          (generate_from task_id timeout_action item subject_ids created_at due_at (suc n) steps) _
          h2 in
      (id, rest, ground arith, generated (suc n) steps rest more)

  later_numbers :
      (m n : ℕ) (steps : List SubjectType) (ts : List Task)
      → m < n
      → From n steps ts
      → All (λ (u : Task). m < u.sequence) ts
  later_numbers m n [] ts h f = rw f tt
  later_numbers m n (s ∷ steps) ts h (id, rest, made, more) =
      rw made (h, later_numbers m (suc n) steps rest (omega (arith, h)) more)

  ascending : (n : ℕ) (steps : List SubjectType) (ts : List Task) → From n steps ts → IsAscending ts
  ascending n [] ts f = rw f tt
  ascending n (s ∷ steps) ts (id, rest, made, more) =
      rw made
        (later_numbers n (suc n) steps rest (omega arith) more, ascending (suc n) steps rest more)

  later_names :
      (top : ℕ)
      → NamesApart top task_id
      → (m n : ℕ) (r : SubjectType) (steps : List SubjectType) (ts : List Task) → 1 ≤ m
      → m < n
      → n + length steps ≤ suc top
      → From n steps ts
      → All (λ (u : Task). same_text u.confirmation_task_id (task_id m r) ≡ false) ts
  later_names top apart m n r [] ts l h b f = rw f tt
  later_names top apart m n r (s ∷ steps) ts l h b (id, rest, made, more) = rw made (
    apart m n r s l h (omega (arith, b)),
    later_names top apart m (suc n) r steps rest l (omega (arith, h)) (omega (arith, b)) more,
  )

  distinct :
      (top : ℕ)
      → NamesApart top task_id
      → (n : ℕ) (steps : List SubjectType) (ts : List Task) → 1 ≤ n
      → n + length steps ≤ suc top
      → From n steps ts
      → AreDistinct ts
  distinct top apart n [] ts l b f = rw f tt
  distinct top apart n (s ∷ steps) ts l b (id, rest, made, more) = rw made (
    later_names top apart n (suc n) s steps rest l (omega arith) (omega (arith, b)) more,
    distinct top apart (suc n) steps rest (omega (arith, l)) (omega (arith, b)) more,
  )

  all_wait :
      (n : ℕ) (steps : List SubjectType) (ts : List Task)
      → 1 < n
      → From n steps ts
      → all_waiting ts ≡ true
  all_wait n [] ts h f = rw f refl
  all_wait n (s ∷ steps) ts h (id, rest, made, more) =
      let later : (n == 1) ≡ false = ground arith in
      rw (made, later) (all_wait (suc n) steps rest (omega (arith, h)) more)

-- The tasks that a policy with at least one step generates for an open item are a chain with it: the
-- first task is pending and all others wait, if the hash gives different names to the
-- places of the chain.
pub generate_tasks-IsChain :
    (task_id : ℕ → SubjectType → String) (timeout_action : TimeoutAction) (item : EnrollmentItem)
    (subject_ids : SubjectType → Option String) (created due : Reading) (step : SubjectType)
    (steps : List SubjectType) (tasks : List Task)
    → NamesApart (length (step ∷ steps)) task_id
    → item.status ≡ pending_confirmation
    → generate_tasks task_id timeout_action item subject_ids created due (step ∷ steps) ≡ ok tasks
    → IsChain (record { item = item; tasks = tasks })
unfolding generate_tasks
generate_tasks-IsChain task_id timeout_action item subject_ids created due s steps tasks apart p h =
    let (c, _, h1) = >>=-eq-ok (instant created ConfirmationError.naive_time) _ h in
    let (d, _, h2) = >>=-eq-ok (instant due ConfirmationError.naive_time) _ h1 in
    let f = generated task_id timeout_action item subject_ids c d 1 (s ∷ steps) tasks h2 in
    let (id, rest, made, more) = f in
    let waits =
      all_wait task_id timeout_action item subject_ids c d 2 steps rest (omega arith) more in
    let first : shape (new_task task_id timeout_action item s id 1 c d ∷ rest)
        ≡ some pending_confirmation =
      rw waits refl in
    record {
      fits = ap shape made ∙ first ∙ ap some (sym p);
      ascending = ascending task_id timeout_action item subject_ids c d 1 (s ∷ steps) tasks f;
      distinct =
          distinct task_id timeout_action item subject_ids c d (length (s ∷ steps)) apart 1
            (s ∷ steps) tasks (omega arith) (omega arith) f;
    }
