-- ===== src/Sql/Atomic.antt =====
-- A transaction that answers an error has changed nothing.
use nms.Prelude.{◌≡◌, refl, Bool, true, false, List, [], ◌∷◌}
use nms.Prelude.Result.{Result, ok, err}
use nms.Sql.{Conn, Sql, run_statement, statement, continue, ◌>>=◌, commit, finish, in_tx, lift}
use nms.Sql.Rules.{Keeps}

-- The tables are those of before, unless the answer is no error.
abbrev pub IsSafe : {S A : Type 0} → S → Result A × Conn S → Type 0
IsSafe before (ok a, c) = Unit
IsSafe before (err e, c) = c.db ≡ before

module _ {S A : Type 0} where
  commit-IsSafe :
      (before : S) (a : A) (r : Result (Unit {0}) × Conn S) → IsSafe before (commit before a r)
  unfolding commit
  commit-IsSafe before a (ok u, c) = tt
  commit-IsSafe before a (err e, c) = refl

  finish-IsSafe : (before : S) (r : Result A × Conn S) → IsSafe before (finish before r)
  unfolding finish
  finish-IsSafe before (err e, c) = refl
  finish-IsSafe before (ok a, c) = commit-IsSafe before a (statement (λ s. (tt, s)) c)

  begun-IsSafe :
      (body : Sql S A) (faults : List Bool) (s : S)
      → IsSafe s
          (continue (run_statement faults (λ s. (tt {0}, s)) s) (λ u c. finish c.db (body c)))
  unfolding run_statement
  begun-IsSafe body [] s = finish-IsSafe s (body (record { db = s; faults = [] }))
  begun-IsSafe body (true ∷ rest) s = refl
  begun-IsSafe body (false ∷ rest) s = finish-IsSafe s (body (record { db = s; faults = rest }))

  pub in_tx-IsSafe : (body : Sql S A) (c : Conn S) → IsSafe c.db (in_tx body c)
  unfolding in_tx statement ◌>>=◌
  in_tx-IsSafe body c = begun-IsSafe body c.faults c.db

  pub Keeps-lift : {P : S → Type 0} (r : Result A) → Keeps P (lift r)
  unfolding lift
  Keeps-lift r = record { at = λ c p. p }
