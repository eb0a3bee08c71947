-- ===== src/Sql/Parts.antt =====
-- Rules for blocks that touch some of the tables, for answers that are passed over, and for a rest
-- that uses what a first part established.
use nms.Prelude.Result.{Result, ok, err}
use nms.Sql.{Conn, Sql, continue, ◌>>=◌, exec, zoom, or_else, settle}
use nms.Sql.Rules.{Holds, Ensures, Keeps, Keeps-statement}

module _ {S : Type 0} {P : S → Type 0} where
  pub Keeps-exec : (f : S → S) → ((s : S) → P s → P (f s)) → Keeps P (exec f)
  unfolding exec
  Keeps-exec f h = Keeps-statement _ h

module _ {S T A : Type 0} where
  -- What a block keeps of the tables that it touches, next to what the others satisfy.
  pub Keeps-zoom :
      (P : S → Type 0) {Q : T → Type 0} (get : T → S) (put : S → T → T) (m : Sql S A)
      → ((t : T) → Q t → P (get t))
      → ((s : S) (t : T) → P s → Q t → Q (put s t))
      → Keeps P m
      → Keeps Q (zoom get put m)
  unfolding zoom
  Keeps-zoom P get put m there back h = record {
    at = λ c q. back _ c.db (h.at (record { db = get c.db; faults = c.faults }) (there c.db q)) q;
  }

module _ {S A : Type 0} where
  Keeps-settle : (P : S → Type 0) (a : A) (r : Result A × Conn S) → P r.1.db → P (settle a r).1.db
  Keeps-settle P a (ok b, c) p = p
  Keeps-settle P a (err e, c) p = p

  pub Keeps-or_else : {P : S → Type 0} (a : A) (m : Sql S A) → Keeps P m → Keeps P (or_else a m)
  unfolding or_else
  Keeps-or_else {P} a m h = record { at = λ c p. Keeps-settle P a (m c) (h.at c p) }

  Holds-always : (P : S → Type 0) (r : Result A × Conn S) → P r.1.db → Holds (λ a. P) r
  Holds-always P (ok a, c) p = p
  Holds-always P (err e, c) p = tt

  -- What a block keeps, it establishes.
  pub Ensures-kept : {P : S → Type 0} (m : Sql S A) → Keeps P m → Ensures P m (λ a. P)
  Ensures-kept {P} m h = record { at = λ c p. Holds-always P (m c) (h.at c p) }

module _ {S A B : Type 0} {P : S → Type 0} where
  continue-known :
      (F : A → Type 0) (r : Result A × Conn S) (f : A → Sql S B)
      → Holds (λ a s. F a × P s) r
      → P r.1.db
      → ((a : A) → F a → Keeps P (f a))
      → P (continue r f).1.db
  continue-known F (ok a, c) f known p h = (h a known.0).at c p
  continue-known F (err e, c) f known p h = p

  -- The rest of the block may use what the first part established of its answer.
  pub Keeps-bind-known :
      (F : A → Type 0) {first : Sql S A} (rest : A → Sql S B)
      → Keeps P first
      → Ensures P first (λ a s. F a × P s)
      → ((a : A) → F a → Keeps P (rest a))
      → Keeps P (first >>= rest)
  unfolding ◌>>=◌
  Keeps-bind-known F {first} rest kept known h = record {
    at = λ c p. continue-known F (first c) rest (known.at c p) (kept.at c p) h;
  }
