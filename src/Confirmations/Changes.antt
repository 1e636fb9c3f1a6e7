-- ===== src/Confirmations/Changes.antt =====
-- The item and the dictionary of changes that a transition computes, on the tasks after the pending one.
use oria.Base.{
  ℕ, String, ◌≡◌, refl, sym, ap, subst, inl, inr, true, false, none, some, List, [], ◌∷◌, map, find,
  All, ok, >>=-eq-ok, arith, Bool-cases, ◌∙◌,
}
use oria.Confirmations.{
  EnrollmentItem, Task, same_text, with_task_status, with_item_status, next_item_version,
  item_confirmed, item_rejected,
}
use oria.Confirmations.Service.{
  Outcome, status_of, has_task_id, cancel_waiting, earliest, activated, activate, or_changed,
  terminal_rejection, advanced, changes,
}
use oria.Confirmations.Chains.{all_waiting, IsAscending, AreDistinct, later_step, step_item}
use oria.Confirmations.Advance.{
  Avoids, same_sym, next_item_version-ok, activate-ok, cancel-find, cons_eq, or_changed-found,
  or_changed-none, own_name, cancel_all, earliest_first,
}

-- The changes that follow the first, on the tasks after it.
pub record Changed (task : Task) (ts : List Task) (outcome : Outcome) (now : ℕ)
    (item i : EnrollmentItem) (r : List Task) : Type 0 where
  pub item_is : i ≡ step_item outcome now item ts
  pub others :
      (id : String)
      → same_text task.confirmation_task_id id ≡ false
      → Avoids id ts
      → find (has_task_id id) r ≡ none
  pub own :
      find (has_task_id task.confirmation_task_id) r
      ≡ some (with_task_status task now (status_of outcome))
  pub later : map (or_changed r) ts ≡ later_step outcome now ts

abbrev pub first_of : Task → Outcome → ℕ → Task
first_of task outcome now = with_task_status task now (status_of outcome)

ending :
    (task : Task) (ts : List Task) (outcome : Outcome) (now : ℕ) (item i : EnrollmentItem)
    (r : List Task)
    → terminal_rejection outcome ts ≡ true
    → all_waiting ts ≡ true
    → Avoids task.confirmation_task_id ts
    → AreDistinct ts
    → cancel_waiting ts now (first_of task outcome now ∷ []) ≡ ok r
    → i ≡ with_item_status item now item_rejected
    → Changed task ts outcome now item i r
ending task ts outcome now item i r ends w a d h q = record {
  item_is = rw ends q;
  others = λ id miss free.
      cancel-find id ts now (first_of task outcome now ∷ []) r w h free ∙ (rw miss refl);
  own =
      cancel-find task.confirmation_task_id ts now (first_of task outcome now ∷ []) r w h a
      ∙ (rw (own_name task.confirmation_task_id) refl);
  later = rw ends (cancel_all ts now (first_of task outcome now ∷ []) r w d h);
}

map_unchanged :
    (r ts : List Task)
    → All (λ (u : Task). find (has_task_id u.confirmation_task_id) r ≡ none) ts
    → map (or_changed r) ts ≡ ts
map_unchanged r [] h = refl
map_unchanged r (t ∷ ts) h = cons_eq (or_changed-none r t h.0) (map_unchanged r ts h.1)

two_missed :
    (first next : Task) (id : String)
    → same_text next.confirmation_task_id id ≡ false
    → same_text first.confirmation_task_id id ≡ false
    → find (has_task_id id) (next ∷ first ∷ []) ≡ none
two_missed first next id h k = rw (h, k) refl

others_missed :
    (first next : Task) (us : List Task)
    → Avoids next.confirmation_task_id us
    → Avoids first.confirmation_task_id us
    → All (λ (v : Task). find (has_task_id v.confirmation_task_id) (next ∷ first ∷ []) ≡ none) us
others_missed first next [] h k = tt
others_missed first next (v ∷ vs) h k = (
  two_missed first next v.confirmation_task_id
      (same_sym v.confirmation_task_id next.confirmation_task_id h.0)
      (same_sym v.confirmation_task_id first.confirmation_task_id k.0),
  others_missed first next vs h.1 k.1,
)

going_on :
    (task u : Task) (us : List Task) (outcome : Outcome) (now : ℕ) (item : EnrollmentItem)
    → terminal_rejection outcome (u ∷ us) ≡ false
    → Avoids task.confirmation_task_id (u ∷ us)
    → AreDistinct (u ∷ us)
    → Changed task (u ∷ us) outcome now item item (activated u now ∷ first_of task outcome now ∷ [])
going_on task u us outcome now item goes a d = record {
  item_is = rw goes refl;
  others = λ id miss free. two_missed (first_of task outcome now) (activated u now) id free.0 miss;
  own = rw (a.0, own_name task.confirmation_task_id) refl;
  later = rw goes (
      cons_eq
        (or_changed-found (activated u now ∷ first_of task outcome now ∷ []) u
          (rw (own_name u.confirmation_task_id) refl))
        (map_unchanged (activated u now ∷ first_of task outcome now ∷ []) us
          (others_missed (first_of task outcome now) (activated u now) us d.0 a.1)));
}

at_end :
    (task : Task) (outcome : Outcome) (now : ℕ) (item : EnrollmentItem)
    → terminal_rejection outcome [] ≡ false
    → Changed task [] outcome now item
        (with_item_status item now item_confirmed)
        (first_of task outcome now ∷ [])
at_end task outcome now item goes = record {
  item_is = rw goes refl;
  others = λ id miss free. rw miss refl;
  own = rw (own_name task.confirmation_task_id) refl;
  later = rw goes refl;
}

advanced-Changed :
    (task : Task) (ts : List Task) (outcome : Outcome) (now : ℕ) (item i : EnrollmentItem)
    (r : List Task)
    → terminal_rejection outcome ts ≡ false
    → IsAscending ts
    → Avoids task.confirmation_task_id ts
    → AreDistinct ts
    → advanced item (first_of task outcome now) (earliest ts) now ≡ ok (i, r)
    → Changed task ts outcome now item i r
unfolding earliest
advanced-Changed task [] outcome now item i r goes up a d h =
    let (j, made, h1) = >>=-eq-ok (next_item_version item now item_confirmed) _ h in
    let q = next_item_version-ok item now item_confirmed j made in
    let qi : with_item_status item now item_confirmed ≡ i = sym q ∙ ground arith in
    let qr : (first_of task outcome now ∷ []) ≡ r = ground arith in
    subst (λ x. Changed task [] outcome now item x r) qi
      (subst (λ x. Changed task [] outcome now item (with_item_status item now item_confirmed) x) qr
        (at_end task outcome now item goes))
advanced-Changed task (u ∷ us) outcome now item i r goes up a d h =
    let h0 : advanced item (first_of task outcome now) (some u) now ≡ ok (i, r) =
      subst (λ e. advanced item (first_of task outcome now) e now ≡ ok (i, r))
        (earliest_first u us up.0) h in
    let (n, made, h1) = >>=-eq-ok (activate u now) _ h0 in
    let q = activate-ok u now n made in
    let qi : item ≡ i = ground arith in
    let qr : (activated u now ∷ first_of task outcome now ∷ []) ≡ r =
      ap (λ x. x ∷ first_of task outcome now ∷ []) (sym q) ∙ ground arith in
    subst (λ x. Changed task (u ∷ us) outcome now item x r) qi
      (subst (λ x. Changed task (u ∷ us) outcome now item item x) qr
        (going_on task u us outcome now item goes a d))

pub changes-Changed :
    (task : Task) (ts : List Task) (outcome : Outcome) (now : ℕ) (item i : EnrollmentItem)
    (r : List Task)
    → all_waiting ts ≡ true
    → IsAscending ts
    → Avoids task.confirmation_task_id ts
    → AreDistinct ts
    → changes item (first_of task outcome now) ts outcome now ≡ ok (i, r)
    → Changed task ts outcome now item i r
changes-Changed task ts outcome now item i r w up a d h =
    elim (Bool-cases (terminal_rejection outcome ts)) [
      | inr goes ↦ advanced-Changed task ts outcome now item i r goes up a d (rw goes at h)
      | inl ends ↦
          let (c, cancelled_ok, h1) =
            >>=-eq-ok (cancel_waiting ts now (first_of task outcome now ∷ [])) _ (rw ends at h) in
          let (j, made, h2) = >>=-eq-ok (next_item_version item now item_rejected) _ h1 in
          let q = next_item_version-ok item now item_rejected j made in
          let qr : c ≡ r = ground arith in
          let qi : i ≡ j = ground arith in
          ending task ts outcome now item i r ends w a d
            (subst (λ x. cancel_waiting ts now (first_of task outcome now ∷ []) ≡ ok x) qr
              cancelled_ok)
            (qi ∙ q)
    ]
