-- ===== src/Sql.antt =====
-- internal/infrastructure/postgres/tx.go: statements, and transactions that commit or roll back.
-- The driver may refuse any statement, `BEGIN` and `COMMIT` included: `faults` says which of the
-- next statements fail (`true`), and past its end none does. What runs on the server between
-- `BEGIN` and `COMMIT` is one step here; rows read there are read `FOR UPDATE` or under a lock.
pub mod Rules
pub mod Parts
pub mod Atomic
use nms.Prelude.{ℕ, Bool, true, false, List, [], ◌∷◌}
use nms.Prelude.Result.{Error, Result, ok, err, database}

-- A connection to a database whose tables are an `S`.
pub record Conn (S : Type 0) : Type 0 where
  pub db : S
  pub faults : List Bool

abbrev pub Sql : Type 0 → Type 0 → Type 0
Sql S A = Conn S → Result A × Conn S

module _ {S A : Type 0} where
  unfoldable pub pure : A → Sql S A
  pure a c = (ok a, c)

  unfoldable pub raise : Error → Sql S A
  raise e c = (err e, c)

  run_statement : List Bool → (S → A × S) → S → Result A × Conn S
  run_statement [] f s = let (a, s') = f s in (ok a, record { db = s'; faults = [] })
  run_statement (true ∷ rest) f s = (err database, record { db = s; faults = rest })
  run_statement (false ∷ rest) f s = let (a, s') = f s in (ok a, record { db = s'; faults = rest })

  -- One SQL statement: what it returns, and the tables after it.
  unfoldable pub statement : (S → A × S) → Sql S A
  unfolding run_statement
  statement f c = run_statement c.faults f c.db

module _ {S A B : Type 0} where
  abbrev pub continue : Result A × Conn S → (A → Sql S B) → Result B × Conn S
  continue (ok a, c) f = f a c
  continue (err e, c) f = (err e, c)

  infixl 5 ◌>>=◌
  unfoldable pub ◌>>=◌ : Sql S A → (A → Sql S B) → Sql S B
  ◌>>=◌ m f c = continue (m c) f

infixl 5 ◌>>◌
abbrev pub ◌>>◌ : {S B : Type 0} → Sql S (Unit {0}) → Sql S B → Sql S B
m >> n = m >>= λ _. n

module _ {S A : Type 0} where
  -- Rows that the statement only reads.
  unfoldable pub query : (S → A) → Sql S A
  unfolding statement
  query f = statement (λ s. (f s, s))

  -- What `tx.Commit()` answered decides between the new tables and those of `BEGIN`.
  commit : S → A → Result (Unit {0}) × Conn S → Result A × Conn S
  commit before a (ok _, c) = (ok a, c)
  commit before a (err e, c) = (err e, record c { db = before })

  -- Commit when the body returned nil; the deferred `Rollback` otherwise.
  finish : S → Result A × Conn S → Result A × Conn S
  unfolding statement commit
  finish before (err e, c) = (err e, record c { db = before })
  finish before (ok a, c) = commit before a (statement (λ s. (tt, s)) c)

  -- `InTx`.
  unfoldable pub in_tx : Sql S A → Sql S A
  unfolding finish ◌>>=◌ statement
  in_tx body = statement (λ s. (tt, s)) >> λ c. finish c.db (body c)

-- A statement that returns nothing.
unfoldable pub exec : {S : Type 0} → (S → S) → Sql S (Unit {0})
unfolding statement
exec f = statement (λ s. (tt, f s))

-- A check that touches no table: `if err != nil { return err }`.
unfoldable pub lift : {S A : Type 0} → Result A → Sql S A
lift r c = (r, c)

module _ {S T A : Type 0} where
  abbrev pub zoomed : (S → T → T) → T → Result A × Conn S → Result A × Conn T
  zoomed put t (r, c) = (r, record { db = put c.db t; faults = c.faults })

  -- A block that touches some of the tables only.
  unfoldable pub zoom : (T → S) → (S → T → T) → Sql S A → Sql T A
  zoom get put m c = zoomed put c.db (m (record { db = get c.db; faults = c.faults }))

module _ {S A : Type 0} where
  abbrev pub settle : A → Result A × Conn S → Result A × Conn S
  settle a (ok b, c) = (ok b, c)
  settle a (err e, c) = (ok a, c)

  -- `_ = query.Scan(&a)`: an error leaves the value that `a` had.
  unfoldable pub or_else : A → Sql S A → Sql S A
  or_else a m c = settle a (m c)

-- Running a block to its end: a test that computes with it names this definition.
unfoldable pub execute : {S A : Type 0} → Sql S A → Conn S → Result A × Conn S
unfolding pure raise lift statement query exec in_tx zoom or_else ◌>>=◌
execute m c = m c
