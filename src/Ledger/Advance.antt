-- ===== src/Ledger/Advance.antt =====
-- An execution only moves forward, in any interleaving of processes.
use oria.Base.{
  ℕ, ◌≤◌, String, ◌≡◌, refl, sym, ◌∙◌, subst, ap, inl, inr, Bool, true, false, some, List, ◌∷◌,
  find, any, arith, is-true, is-yes, String_discrete, Bool-cases, find-any, find-map, find-holds,
}
use oria.Ledger.{
  ExecutionStatus, reserved, executing, succeeded, failed, unknown, ToolExecution, is_reserved,
  is_executing, may_become,
}
use oria.Ledger.Repository.{has_id, clashes, is_source, written, with_outcome}
use oria.Ledger.Transition.{Moved}
use oria.Ledger.Law.{Law}

-- The order in which an execution passes its statuses.
abbrev pub rank : ExecutionStatus → ℕ
rank reserved = 0
rank executing = 1
rank unknown = 2
rank succeeded = 3
rank failed = 3

abbrev pub is_settled : ExecutionStatus → Bool
is_settled succeeded = true
is_settled failed = true
is_settled _ = false

-- `e'` is a later state of the row `e`.
pub record Advances (e e' : ToolExecution) : Type 0 where
  pub rank_le : rank e.status ≤ rank e'.status
  pub end_stays : is_settled e.status ≡ true → e' ≡ e
  pub attempt_stays : is_reserved e.status ≡ false → e'.attempt_count ≡ e.attempt_count
  pub binding_stays :
      (e'.idempotency_key ≡ e.idempotency_key) × (e'.canonical_args_hash ≡ e.canonical_args_hash)

pub Advances-refl : (e : ToolExecution) → Advances e e
Advances-refl e = record {
  rank_le = omega arith;
  end_stays = λ _. refl;
  attempt_stays = λ _. refl;
  binding_stays = (refl, refl);
}

left_stays :
    (s t : ExecutionStatus) → rank s ≤ rank t → is_reserved s ≡ false → is_reserved t ≡ false
left_stays s t h k = ground arith

pub Advances-trans : {a b c : ToolExecution} → Advances a b → Advances b c → Advances a c
Advances-trans {a} {b} {c} f g = record {
  rank_le = omega (arith, f.rank_le, g.rank_le);
  end_stays = λ h.
      let q = f.end_stays h in
      let r = g.end_stays (subst (λ (x : ToolExecution). is_settled x.status ≡ true) (sym q) h) in
      cc;
  attempt_stays =
      λ h. g.attempt_stays (left_stays a.status b.status f.rank_le h) ∙ f.attempt_stays h;
  binding_stays = (g.binding_stays.0 ∙ f.binding_stays.0, g.binding_stays.1 ∙ f.binding_stays.1);
}

rank_forward : (s t : ExecutionStatus) → may_become s t ≡ true → rank s ≤ rank t
rank_forward s t h = ground arith

unsettled : (s t : ExecutionStatus) → may_become s t ≡ true → is_settled s ≡ false
unsettled s t h = ground arith

runs_once :
    (s t : ExecutionStatus) → may_become s t ≡ true → is_reserved s ≡ false → is_executing t ≡ false
runs_once s t h k = ground arith

pub Moved-Advances :
    (rows : List ToolExecution) (t i : String) (target expected : ExecutionStatus)
    {e : ToolExecution} {rows' : List ToolExecution}
    → (m : Moved rows t i target expected e rows') → Advances m.existing (with_outcome e m.existing)
Moved-Advances rows t i target expected {e} m = record {
  rank_le = rw m.status_is (rank_forward m.existing.status target m.allowed);
  end_stays = λ h. let u = unsettled m.existing.status target m.allowed in cc;
  attempt_stays = λ h.
      let once = runs_once m.existing.status target m.allowed h in
      let k = m.attempts in ground arith;
  binding_stays = (refl, refl);
}

-- The row with an identity is kept, in a later state.
abbrev pub Progress : String → String → List ToolExecution → List ToolExecution → Type 0
Progress t i rows rows' =
    (e : ToolExecution)
    → find (has_id t i) rows ≡ some e
    → (e' : ToolExecution) × (find (has_id t i) rows' ≡ some e') × Advances e e'

has_id-eq :
    (t i t' i' : String) (e : ToolExecution)
    → has_id t i e ≡ true
    → has_id t' i' e ≡ true
    → (t' ≡ t) × (i' ≡ i)
has_id-eq t i t' i' e h k = (
  sym (is-true (String_discrete e.tenant_id t') (ground arith))
      ∙ is-true (String_discrete e.tenant_id t) (ground arith),
  sym (is-true (String_discrete e.execution_id i') (ground arith))
      ∙ is-true (String_discrete e.execution_id i) (ground arith),
)

written-has_id :
    (t i : String) (test : ToolExecution → Bool) (e row : ToolExecution)
    → has_id t i (written test e row) ≡ has_id t i row
written-has_id t i test e row = ground arith

written_miss :
    (test : ToolExecution → Bool) (e row : ToolExecution)
    → test row ≡ false
    → written test e row ≡ row
written_miss test e row h = rw h refl

written_hit :
    (test : ToolExecution → Bool) (e row : ToolExecution)
    → test row ≡ true
    → written test e row ≡ with_outcome e row
written_hit test e row h = rw h refl

source_id :
    (t i : String) (s : ExecutionStatus) (row : ToolExecution)
    → is_source t i s row ≡ true
    → has_id t i row ≡ true
source_id t i s row h = ground arith

own_id : (e : ToolExecution) → has_id e.tenant_id e.execution_id e ≡ true
own_id e =
    rw
      (
        is-yes (String_discrete e.tenant_id e.tenant_id) refl,
        is-yes (String_discrete e.execution_id e.execution_id) refl,
      )
      refl

some_eq : {a b : ToolExecution} → some a ≡ some b → a ≡ b
some_eq h = ground arith

insert-Progress :
    (t i : String) (v : ToolExecution) (rows : List ToolExecution)
    → any (clashes v) rows ≡ false
    → Progress t i rows (v ∷ rows)
insert-Progress t i v rows free e found =
    let (hit, clear) = find-any (has_id t i) (clashes v) rows found free in
    elim (Bool-cases (has_id t i v)) [
      | inr other ↦ (e, ground arith, Advances-refl e)
      | inl same ↦
          let (_, q) = has_id-eq v.tenant_id v.execution_id t i v (own_id v) same in
          let (_, r) = has_id-eq e.tenant_id e.execution_id t i e (own_id e) hit in
          let taken = is-yes (String_discrete e.execution_id v.execution_id) (sym r ∙ q) in
          absurd (ground arith)
    ]

Moved-Progress :
    (t i : String) (rows : List ToolExecution) (t' i' : String) (target expected : ExecutionStatus)
    (e : ToolExecution) (rows' : List ToolExecution)
    → Moved rows t' i' target expected e rows'
    → Progress t i rows rows'
Moved-Progress t i rows t' i' target expected e rows' m a found =
    let test = is_source t' i' m.existing.status in
    let there = find-map (has_id t i) (written test e) (written-has_id t i test e) rows found in
    elim (Bool-cases (test a)) [
      | inr miss ↦ (a, rw m.made (there ∙ ap some (written_miss test e a miss)), Advances-refl a)
      | inl hit ↦
          let own = find-holds (has_id t i) rows found in
          let (p, q) = has_id-eq t i t' i' a own (source_id t' i' m.existing.status a hit) in
          let first = subst (λ x. find (has_id x i') rows ≡ some m.existing) p m.found in
          let second = subst (λ x. find (has_id t x) rows ≡ some m.existing) q first in
          let same : m.existing ≡ a = some_eq (sym second ∙ found) in
          (
            with_outcome e a,
            rw m.made (there ∙ ap some (written_hit test e a hit)),
            subst (λ z. Advances z (with_outcome e z)) same
                (Moved-Advances rows t' i' target expected m),
          )
    ]

pub Progress-Law : (t i : String) → Law (Progress t i)
Progress-Law t i = record {
  stays = λ rows e found. (e, found, Advances-refl e);
  follows = λ a b c f g e found.
      let (e1, found1, l1) = f e found in
      let (e2, found2, l2) = g e1 found1 in (e2, found2, Advances-trans l1 l2);
  inserts = λ v rows free. insert-Progress t i v rows free;
  moves = λ rows t' i' target expected e rows' m.
      Moved-Progress t i rows t' i' target expected e rows' m;
}
