-- ===== src/Ledger/Counting.antt =====
-- Counting the rows of one execution, and of one that is still reserved, under the two writes that
-- the ledger makes: an insertion and the update of one row.
use oria.Base.{
  ℕ, ◌+◌, ◌≤◌, String, ◌≡◌, refl, Bool, true, false, ◌&&◌, List, [], ◌∷◌, length, map, select, any,
  arith, is, String_discrete,
}
use oria.Ledger.{ToolExecution, is_reserved}
use oria.Ledger.Repository.{written}

abbrev pub named : String → ToolExecution → Bool
named x row = is (String_discrete row.execution_id x)

abbrev pub waiting : String → ToolExecution → Bool
waiting x row = named x row && is_reserved row.status

-- The rows of an execution, and those that are reserved.
abbrev pub total : String → List ToolExecution → ℕ
total x rows = length (select (named x) rows)

abbrev pub fresh : String → List ToolExecution → ℕ
fresh x rows = length (select (waiting x) rows)

pub fresh-total : (x : String) (rows : List ToolExecution) → fresh x rows ≤ total x rows
fresh-total x [] = omega arith
fresh-total x (row ∷ rows) = let rest = fresh-total x rows in ground arith

pub total-any :
    (x : String) (rows : List ToolExecution) → any (named x) rows ≡ false → total x rows ≡ 0
total-any x [] h = refl
total-any x (row ∷ rows) h = let rest = total-any x rows in ground arith

module _ (x : String) (test : ToolExecution → Bool) (t : ToolExecution) where
  pub total-written :
      (rows : List ToolExecution) → total x (map (written test t) rows) ≡ total x rows
  total-written [] = refl
  total-written (row ∷ rows) = let rest = total-written rows in ground arith

  pub fresh-written :
      is_reserved t.status ≡ false
      → (rows : List ToolExecution) → fresh x (map (written test t) rows) ≤ fresh x rows
  fresh-written k [] = omega arith
  fresh-written k (row ∷ rows) = let rest = fresh-written k rows in ground arith

  -- Rows that leave the reserved status are no longer counted.
  pub fresh-written-marked :
      is_reserved t.status ≡ false
      → ((row : ToolExecution) → test row ≡ true → waiting x row ≡ true)
      → (rows : List ToolExecution)
      → fresh x (map (written test t) rows) + length (select test rows) ≤ fresh x rows
  fresh-written-marked k hit [] = omega arith
  fresh-written-marked k hit (row ∷ rows) =
      let rest = fresh-written-marked k hit rows in let h = hit row in ground arith
