-- ===== src/Confirmations/Chains.antt =====
-- What a chain of confirmation tasks is, apart from the code: a prefix of tasks that have passed, and
-- what follows it; and the step that one answer makes, in the words of the code.
use oria.Base.{
  ℕ, ◌<◌, ◌≡◌, refl, ◌⊎◌, inl, inr, Bool, true, false, ◌&&◌, Option, none, some, List, [], ◌∷◌, map,
  All, arith, Bool-cases, if◌then◌else◌,
}
use oria.Confirmations.{
  TaskStatus, waiting, pending, confirmed, rejected, timed_out, cancelled, ItemStatus,
  pending_confirmation, item_confirmed, item_rejected, EnrollmentItem, Task, same_text, is_waiting,
  is_pending, with_task_status, with_item_status,
}
use oria.Confirmations.Service.{
  Chain, Outcome, confirms, rejects, times_out, status_of, activated, terminal_rejection,
}

abbrev pub all_waiting : List Task → Bool
all_waiting [] = true
all_waiting (t ∷ ts) = is_waiting t.status && all_waiting ts

abbrev is_cancelled : TaskStatus → Bool
is_cancelled cancelled = true
is_cancelled _ = false

abbrev pub all_cancelled : List Task → Bool
all_cancelled [] = true
all_cancelled (t ∷ ts) = is_cancelled t.status && all_cancelled ts

-- The status of the item, from the first task, the later ones, and what these alone would say.
abbrev pub shape_of : TaskStatus → List Task → Option ItemStatus → Option ItemStatus
shape_of confirmed [] later = some item_confirmed
shape_of timed_out [] later = some item_rejected
shape_of confirmed (t ∷ ts) later = later
shape_of timed_out (t ∷ ts) later = later
shape_of rejected ts later = if all_cancelled ts then some item_rejected else none
shape_of pending ts later = if all_waiting ts then some pending_confirmation else none
shape_of _ ts later = none

abbrev pub shape : List Task → Option ItemStatus
shape [] = none
shape (t ∷ ts) = shape_of t.status ts (shape ts)

abbrev pub IsAscending : List Task → Type 0
IsAscending [] = Unit
IsAscending (t ∷ ts) = All (λ (u : Task). t.sequence < u.sequence) ts × IsAscending ts

abbrev pub AreDistinct : List Task → Type 0
AreDistinct [] = Unit
AreDistinct (t ∷ ts) =
    All (λ (u : Task). same_text u.confirmation_task_id t.confirmation_task_id ≡ false) ts
    × AreDistinct ts

-- The item has the status that its tasks give, in the order of their sequence, with distinct names.
pub record IsChain (c : Chain) : Type 0 where
  pub fits : shape c.tasks ≡ some c.item.status
  pub ascending : IsAscending c.tasks
  pub distinct : AreDistinct c.tasks

-- The tasks after the pending one.
abbrev pub after_pending : List Task → List Task
after_pending [] = []
after_pending (t ∷ ts) = if is_pending t.status then ts else after_pending ts

abbrev pub activate_first : ℕ → List Task → List Task
activate_first now [] = []
activate_first now (t ∷ ts) = activated t now ∷ ts

abbrev pub cancel_task : ℕ → Task → Task
cancel_task now t = with_task_status t now cancelled

abbrev pub later_step : Outcome → ℕ → List Task → List Task
later_step outcome now ts =
    if terminal_rejection outcome ts then map (cancel_task now) ts else activate_first now ts

abbrev pub step_tasks : Outcome → ℕ → List Task → List Task
step_tasks outcome now [] = []
step_tasks outcome now (t ∷ ts) =
    if is_pending t.status
    then with_task_status t now (status_of outcome) ∷ later_step outcome now ts
    else t ∷ step_tasks outcome now ts

-- The item, given the tasks after the pending one.
abbrev pub confirmed_at_end : ℕ → EnrollmentItem → List Task → EnrollmentItem
confirmed_at_end now item [] = with_item_status item now item_confirmed
confirmed_at_end now item (t ∷ ts) = item

abbrev pub step_item : Outcome → ℕ → EnrollmentItem → List Task → EnrollmentItem
step_item outcome now item ts =
    if terminal_rejection outcome ts
    then with_item_status item now item_rejected
    else confirmed_at_end now item ts

abbrev pub step : Outcome → ℕ → Chain → Chain
step outcome now c = record {
  item = step_item outcome now c.item (after_pending c.tasks);
  tasks = step_tasks outcome now c.tasks;
}

cancelled_all : (now : ℕ) (ts : List Task) → all_cancelled (map (cancel_task now) ts) ≡ true
cancelled_all now [] = refl
cancelled_all now (t ∷ ts) = cancelled_all now ts

pending_step-fits :
    (outcome : Outcome) (now : ℕ) (item : EnrollmentItem) (ts : List Task)
    → item.status ≡ pending_confirmation
    → all_waiting ts ≡ true
    → shape_of (status_of outcome) (later_step outcome now ts) (shape (later_step outcome now ts))
      ≡ some (step_item outcome now item ts).status
pending_step-fits confirms now item [] p h = refl
pending_step-fits confirms now item (t ∷ ts) p h = ground arith
pending_step-fits times_out now item [] p h = refl
pending_step-fits times_out now item (t ∷ ts) p h = ground arith
pending_step-fits rejects now item ts p h = rw (cancelled_all now ts) refl

passes_confirmed :
    (us : List Task) (x : ItemStatus)
    → shape us ≡ some x
    → shape_of confirmed us (shape us) ≡ some x
passes_confirmed [] x h = cc
passes_confirmed (u ∷ us) x h = h

passes_timed_out :
    (us : List Task) (x : ItemStatus)
    → shape us ≡ some x
    → shape_of timed_out us (shape us) ≡ some x
passes_timed_out [] x h = cc
passes_timed_out (u ∷ us) x h = h

-- The first task of an open chain is the pending one, or has passed.
pub record Passed (s : TaskStatus) (ts : List Task) : Type 0 where
  pub not_pending : is_pending s ≡ false
  pub open_later : shape ts ≡ some pending_confirmation
  pub passes :
      (us : List Task) (x : ItemStatus) → shape us ≡ some x → shape_of s us (shape us) ≡ some x

pub open-cases :
    (s : TaskStatus) (ts : List Task)
    → shape_of s ts (shape ts) ≡ some pending_confirmation
    → ((is_pending s ≡ true) × (all_waiting ts ≡ true)) ⊎ Passed s ts
open-cases waiting ts h = absurd (ground arith)
open-cases cancelled ts h = absurd (ground arith)
open-cases rejected ts h = absurd (ground arith)
open-cases pending ts h = inl (refl, ground arith)
open-cases confirmed [] h = absurd (ground arith)
open-cases timed_out [] h = absurd (ground arith)
open-cases confirmed (t ∷ ts) h =
    inr (record { not_pending = refl; open_later = h; passes = passes_confirmed })
open-cases timed_out (t ∷ ts) h =
    inr (record { not_pending = refl; open_later = h; passes = passes_timed_out })

step_fits :
    (outcome : Outcome) (now : ℕ) (item : EnrollmentItem) (ts : List Task)
    → item.status ≡ pending_confirmation
    → shape ts ≡ some pending_confirmation
    → shape (step_tasks outcome now ts)
      ≡ some (step_item outcome now item (after_pending ts)).status
step_fits outcome now item [] p h = absurd (ground arith)
step_fits outcome now item (t ∷ ts) p h = elim (open-cases t.status ts h) [
  | inl (here, later) ↦ rw here (pending_step-fits outcome now item ts p later)
  | inr past ↦
      rw past.not_pending (
        past.passes (step_tasks outcome now ts) _ (step_fits outcome now item ts p past.open_later))
]

-- A property that a change of status keeps holds of the tasks after a step.
module _ (P : Task → Type 0) (outcome : Outcome) (now : ℕ)
    (keeps : (t : Task) (s : TaskStatus) → P t → P (with_task_status t now s))
    (keeps_activated : (t : Task) → P t → P (activated t now)) where
  All-cancel_task : (ts : List Task) → All P ts → All P (map (cancel_task now) ts)
  All-cancel_task [] h = tt
  All-cancel_task (t ∷ ts) h = (keeps t cancelled h.0, All-cancel_task ts h.1)

  All-activate_first : (ts : List Task) → All P ts → All P (activate_first now ts)
  All-activate_first [] h = tt
  All-activate_first (t ∷ ts) h = (keeps_activated t h.0, h.1)

  All-later_step : (ts : List Task) → All P ts → All P (later_step outcome now ts)
  All-later_step ts h = elim (Bool-cases (terminal_rejection outcome ts)) [
    | inl ends ↦ rw ends (All-cancel_task ts h)
    | inr goes_on ↦ rw goes_on (All-activate_first ts h)
  ]

  pub All-step_tasks : (ts : List Task) → All P ts → All P (step_tasks outcome now ts)
  All-step_tasks [] h = tt
  All-step_tasks (t ∷ ts) h = elim (Bool-cases (is_pending t.status)) [
    | inl here ↦ rw here (keeps t (status_of outcome) h.0, All-later_step ts h.1)
    | inr past ↦ rw past (h.0, All-step_tasks ts h.1)
  ]

-- A relation of earlier tasks to later ones that looks at names and sequence numbers only.
module _ (R : Task → Task → Type 0) (outcome : Outcome) (now : ℕ)
    (left : (t u : Task) (s : TaskStatus) → R t u → R (with_task_status t now s) u)
    (left_activated : (t u : Task) → R t u → R (activated t now) u)
    (right : (t u : Task) (s : TaskStatus) → R t u → R t (with_task_status u now s))
    (right_activated : (t u : Task) → R t u → R t (activated u now)) where
  abbrev Ordered : List Task → Type 0
  Ordered [] = Unit
  Ordered (t ∷ ts) = All (R t) ts × Ordered ts

  All-left :
      (t t' : Task)
      → ((u : Task) → R t u → R t' u)
      → (ts : List Task) → All (R t) ts
      → All (R t') ts
  All-left t t' f [] h = tt
  All-left t t' f (u ∷ us) h = (f u h.0, All-left t t' f us h.1)

  Ordered-cancel_task : (ts : List Task) → Ordered ts → Ordered (map (cancel_task now) ts)
  Ordered-cancel_task [] h = tt
  Ordered-cancel_task (t ∷ ts) h = (
    All-left t (cancel_task now t) (λ u. left t u cancelled) (map (cancel_task now) ts)
        (All-cancel_task (R t) rejects now (right t) (right_activated t) ts h.0),
    Ordered-cancel_task ts h.1,
  )

  Ordered-activate_first : (ts : List Task) → Ordered ts → Ordered (activate_first now ts)
  Ordered-activate_first [] h = tt
  Ordered-activate_first (t ∷ ts) h = (All-left t (activated t now) (left_activated t) ts h.0, h.1)

  Ordered-later_step : (ts : List Task) → Ordered ts → Ordered (later_step outcome now ts)
  Ordered-later_step ts h = elim (Bool-cases (terminal_rejection outcome ts)) [
    | inl ends ↦ rw ends (Ordered-cancel_task ts h)
    | inr goes_on ↦ rw goes_on (Ordered-activate_first ts h)
  ]

  Ordered-step_tasks : (ts : List Task) → Ordered ts → Ordered (step_tasks outcome now ts)
  Ordered-step_tasks [] h = tt
  Ordered-step_tasks (t ∷ ts) h = elim (Bool-cases (is_pending t.status)) [
    | inl here ↦ rw here (
      All-left t (with_task_status t now (status_of outcome)) (λ u. left t u (status_of outcome))
          (later_step outcome now ts)
          (All-later_step (R t) outcome now (right t) (right_activated t) ts h.0),
      Ordered-later_step ts h.1,
    )
    | inr past ↦ rw past (
      All-step_tasks (R t) outcome now (right t) (right_activated t) ts h.0,
      Ordered-step_tasks ts h.1,
    )
  ]

-- A step of an open chain is a chain.
pub step-IsChain :
    (outcome : Outcome) (now : ℕ) (c : Chain)
    → c.item.status ≡ pending_confirmation
    → IsChain c
    → IsChain (step outcome now c)
step-IsChain outcome now c p h = record {
  fits = step_fits outcome now c.item c.tasks p (rw p at h.fits);
  ascending =
      Ordered-step_tasks (λ (t u : Task). t.sequence < u.sequence) outcome now (λ _ _ _ k. k)
        (λ _ _ k. k) (λ _ _ _ k. k) (λ _ _ k. k) c.tasks h.ascending;
  distinct =
      Ordered-step_tasks
        (λ (t u : Task). same_text u.confirmation_task_id t.confirmation_task_id ≡ false) outcome
        now (λ _ _ _ k. k) (λ _ _ k. k) (λ _ _ _ k. k) (λ _ _ k. k) c.tasks h.distinct;
}
