-- ===== src/Ledger/Law.antt =====
-- A relation between the table of executions before and after a transaction that the two writes of
-- the ledger respect: an insertion without a clash, and the update of a committed transition.
use oria.Base.{String, ◌≡◌, false, List, ◌∷◌, any}
use oria.Ledger.{ExecutionStatus, ToolExecution}
use oria.Ledger.Repository.{clashes}
use oria.Ledger.Transition.{Moved}

abbrev pub Relation : Type 1
Relation = List ToolExecution → List ToolExecution → Type 0

pub record Law (R : Relation) : Type 0 where
  pub stays : (rows : List ToolExecution) → R rows rows
  pub follows : (a b c : List ToolExecution) → R a b → R b c → R a c
  pub inserts :
      (e : ToolExecution) (rows : List ToolExecution)
      → any (clashes e) rows ≡ false
      → R rows (e ∷ rows)
  pub moves :
      (rows : List ToolExecution) (t i : String) (target expected : ExecutionStatus)
      (e : ToolExecution) (rows' : List ToolExecution)
      → Moved rows t i target expected e rows'
      → R rows rows'
