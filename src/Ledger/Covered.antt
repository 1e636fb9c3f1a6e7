-- ===== src/Ledger/Covered.antt =====
-- The two writes of the table keep room for at most one invocation of an execution.
use oria.Base.{
  ℕ, suc, ◌+◌, ◌≤◌, String, ◌≡◌, refl, inl, inr, true, false, List, [], ◌∷◌, any, arith, is,
  String_discrete, Bool-cases, is-true, subst,
}
use oria.Ledger.{
  ExecutionStatus, reserved, executing, ToolExecution, is_reserved, same_status, may_become,
}
use oria.Ledger.Repository.{clashes, is_source}
use oria.Ledger.Transition.{Moved}
use oria.Ledger.Counting.{
  named, waiting, total, fresh, fresh-total, total-any, total-written, fresh-written,
  fresh-written-marked,
}

-- `n` invocations of `x` are covered: they and the reserved row of `x` are at most one row's.
abbrev pub Covered : String → ℕ → List ToolExecution → Type 0
Covered x n rows = (n + fresh x rows ≤ total x rows) × (total x rows ≤ 1)

-- A change of the table that covers whatever it covered before.
abbrev pub Safe : String → List ToolExecution → List ToolExecution → Type 0
Safe x rows rows' = (n : ℕ) → Covered x n rows → Covered x n rows'

target_left : (s t : ExecutionStatus) → may_become s t ≡ true → is_reserved t ≡ false
target_left s t h = ground arith

any-named :
    (x : String) (e : ToolExecution) (rows : List ToolExecution)
    → any (clashes e) rows ≡ false
    → named x e ≡ true
    → any (named x) rows ≡ false
any-named x e [] h k = refl
any-named x e (row ∷ rows) h k =
    let same = is-true (String_discrete e.execution_id x) k in
    let rest = any-named x e rows (ground arith) k in
    let other : is (String_discrete row.execution_id e.execution_id) ≡ false = ground arith in
    let moved = subst (λ y. is (String_discrete row.execution_id y) ≡ false) same other in
    ground arith

reserved_source : (s t : ExecutionStatus) → is_reserved s ≡ true → same_status s t ≡ is_reserved t
reserved_source s t h = ground arith

source_waits :
    (t x : String) (s : ExecutionStatus) (row : ToolExecution)
    → same_status s row.status ≡ is_reserved row.status
    → is_source t x s row ≡ true
    → waiting x row ≡ true
source_waits t x s row k h = ground arith

module _ (x : String) where
  pub insert-Safe :
      (e : ToolExecution) (rows : List ToolExecution)
      → any (clashes e) rows ≡ false
      → Safe x rows (e ∷ rows)
  insert-Safe e rows h n c = elim (Bool-cases (named x e)) [
    | inl hit ↦
        let none_before = total-any x rows (any-named x e rows h hit) in
        let f = fresh-total x rows in ground arith
    | inr miss ↦ ground arith
  ]

  pub Moved-Safe :
      (rows : List ToolExecution) (t i : String) (target expected : ExecutionStatus)
      {e : ToolExecution} {rows' : List ToolExecution}
      → Moved rows t i target expected e rows'
      → Safe x rows rows'
  Moved-Safe rows t i target expected {e} {rows'} m n c =
      let left : is_reserved e.status ≡ false =
        rw m.status_is (target_left m.existing.status target m.allowed) in
      let test = is_source t i m.existing.status in
      let same = total-written x test e rows in
      let fewer = fresh-written x test e left rows in
      rw m.made (omega (arith, same, fewer, c.0), omega (arith, same, c.1))

  -- The transition to executing frees the place of one invocation.
  pub Moved-marked :
      (rows : List ToolExecution) (t : String) {e : ToolExecution} {rows' : List ToolExecution}
      → Moved rows t x executing reserved e rows'
      → (n : ℕ) → Covered x n rows
      → Covered x (suc n) rows'
  Moved-marked rows t {e} {rows'} m n c =
      let left : is_reserved e.status ≡ false = rw m.status_is refl in
      let test = is_source t x m.existing.status in
      let hit = λ (row : ToolExecution) (h : test row ≡ true).
        let s = reserved_source m.existing.status row.status m.source in
        source_waits t x m.existing.status row s h in
      let same = total-written x test e rows in
      let fewer = fresh-written-marked x test e left hit rows in
      rw m.made (omega (arith, same, fewer, m.one, c.0), omega (arith, same, c.1))
