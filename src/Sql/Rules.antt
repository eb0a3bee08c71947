-- ===== src/Sql/Rules.antt =====
-- Rules for what statements, binds and transactions establish (when they return no error) and keep
-- (whether or not they do, and whichever statements the driver refuses).
use nms.Prelude.{◌≡◌, ◌⊎◌, inl, inr, refl, Bool, true, false, List, [], ◌∷◌, if◌then◌else◌}
use nms.Prelude.Result.{Error, Result, ok, err, database}
use nms.Sql.{
  Conn, Sql, pure, raise, run_statement, statement, continue, ◌>>=◌, query, commit, finish, in_tx,
  exec, lift,
}

-- `Q` holds of an answer that is no error.
abbrev pub Holds : {S A : Type 0} → (A → S → Type 0) → Result A × Conn S → Type 0
Holds Q (ok a, c) = Q a c.db
Holds Q (err e, c) = Unit

module _ {S A : Type 0} where
  pub record Ensures (P : S → Type 0) (m : Sql S A) (Q : A → S → Type 0) : Type 0 where
    pub at : (c : Conn S) → P c.db → Holds Q (m c)

  pub record Keeps (P : S → Type 0) (m : Sql S A) : Type 0 where
    pub at : (c : Conn S) → P c.db → P (m c).1.db

module _ {S A : Type 0} where
  Holds-run_statement :
      (Q : A → S → Type 0) (faults : List Bool) (f : S → A × S) (s : S)
      → Q (f s).0 (f s).1
      → Holds Q (run_statement faults f s)
  unfolding run_statement
  Holds-run_statement Q [] f s q = q
  Holds-run_statement Q (true ∷ rest) f s q = tt
  Holds-run_statement Q (false ∷ rest) f s q = q

module _ {S A : Type 0} {P : S → Type 0} where
  pub Ensures-pure : (Q : A → S → Type 0) (a : A) → ((s : S) → P s → Q a s) → Ensures P (pure a) Q
  unfolding pure
  Ensures-pure Q a h = record { at = λ c p. h c.db p }

  pub Ensures-raise : (Q : A → S → Type 0) (e : Error) → Ensures P (raise e) Q
  unfolding raise
  Ensures-raise Q e = record { at = λ c p. tt }

  pub Ensures-statement :
      (Q : A → S → Type 0) (f : S → A × S)
      → ((s : S) → P s → Q (f s).0 (f s).1)
      → Ensures P (statement f) Q
  unfolding statement
  Ensures-statement Q f h = record { at = λ c p. Holds-run_statement Q c.faults f c.db (h c.db p) }

  pub Ensures-query :
      (Q : A → S → Type 0) (f : S → A) → ((s : S) → P s → Q (f s) s) → Ensures P (query f) Q
  unfolding query
  Ensures-query Q f h = Ensures-statement Q (λ s. (f s, s)) h

  pub Ensures-if :
      {Q : A → S → Type 0} (b : Bool) (m n : Sql S A)
      → (b ≡ true → Ensures P m Q)
      → (b ≡ false → Ensures P n Q)
      → Ensures P (if b then m else n) Q
  Ensures-if true m n hm hn = hm refl
  Ensures-if false m n hm hn = hn refl

module _ {S : Type 0} {P : S → Type 0} where
  pub Ensures-exec :
      (Q : Unit {0} → S → Type 0) (f : S → S) → ((s : S) → P s → Q tt (f s)) → Ensures P (exec f) Q
  unfolding exec
  Ensures-exec Q f h = Ensures-statement Q (λ s. (tt, f s)) h

module _ {S A B : Type 0} where
  Holds-continue :
      (Q : A → S → Type 0) (R : B → S → Type 0) (r : Result A × Conn S) (f : A → Sql S B)
      → ((a : A) → Ensures (Q a) (f a) R)
      → Holds Q r
      → Holds R (continue r f)
  Holds-continue Q R (ok a, c) f hf h = (hf a).at c h
  Holds-continue Q R (err e, c) f hf h = tt

  Keeps-continue :
      (P : S → Type 0) (r : Result A × Conn S) (f : A → Sql S B)
      → ((a : A) → Keeps P (f a))
      → P r.1.db
      → P (continue r f).1.db
  Keeps-continue P (ok a, c) f hf h = (hf a).at c h
  Keeps-continue P (err e, c) f hf h = h

module _ {S A B : Type 0} {P : S → Type 0} where
  pub Ensures-bind :
      (Q : A → S → Type 0) {R : B → S → Type 0} {m : Sql S A} (f : A → Sql S B)
      → Ensures P m Q
      → ((a : A) → Ensures (Q a) (f a) R)
      → Ensures P (m >>= f) R
  unfolding ◌>>=◌
  Ensures-bind Q {R} {m} f hm hf = record { at = λ c p. Holds-continue Q R (m c) f hf (hm.at c p) }

  pub Keeps-bind :
      {first : Sql S A} (rest : A → Sql S B)
      → Keeps P first
      → ((answer : A) → Keeps P (rest answer))
      → Keeps P (first >>= rest)
  unfolding ◌>>=◌
  Keeps-bind {first} rest hm hf = record {
    at = λ c p. Keeps-continue P (first c) rest hf (hm.at c p);
  }

module _ {S A : Type 0} where
  Keeps-run_statement :
      (P : S → Type 0) (faults : List Bool) (f : S → A × S) (s : S)
      → P s
      → P (f s).1
      → P (run_statement faults f s).1.db
  unfolding run_statement
  Keeps-run_statement P [] f s p q = q
  Keeps-run_statement P (true ∷ rest) f s p q = p
  Keeps-run_statement P (false ∷ rest) f s p q = q

module _ {S A : Type 0} {P : S → Type 0} where
  pub Keeps-raise : (why : Error) → Keeps P (raise {A = A} why)
  unfolding raise
  Keeps-raise why = record { at = λ c p. p }

  pub Keeps-pure : (answer : A) → Keeps P (pure answer)
  unfolding pure
  Keeps-pure answer = record { at = λ c p. p }

  pub Keeps-statement : (f : S → A × S) → ((s : S) → P s → P (f s).1) → Keeps P (statement f)
  unfolding statement
  Keeps-statement f h = record { at = λ c p. Keeps-run_statement P c.faults f c.db p (h c.db p) }

  pub Keeps-query : (f : S → A) → Keeps P (query f)
  unfolding query
  Keeps-query f = Keeps-statement (λ s. (f s, s)) (λ s p. p)

  pub Keeps-if :
      (test : Bool) (main other : Sql S A)
      → (test ≡ true → Keeps P main)
      → (test ≡ false → Keeps P other)
      → Keeps P (if test then main else other)
  Keeps-if true main other on_yes on_no = on_yes refl
  Keeps-if false main other on_yes on_no = on_no refl

module _ {S A : Type 0} where
  Keeps-commit :
      (P : S → Type 0) (before : S) (a : A) (r : Result (Unit {0}) × Conn S)
      → P before
      → P r.1.db
      → P (commit before a r).1.db
  unfolding commit
  Keeps-commit P before a (ok u, c) p q = q
  Keeps-commit P before a (err e, c) p q = p

  Keeps-finish :
      (P : S → Type 0) (before : S) (r : Result A × Conn S)
      → P before
      → Holds (λ a. P) r
      → P (finish before r).1.db
  unfolding finish statement
  Keeps-finish P before (ok a, c) p q =
      Keeps-commit P before a (statement (λ s. (tt, s)) c) p
        (Keeps-run_statement P c.faults (λ s. (tt, s)) c.db q q)
  Keeps-finish P before (err e, c) p q = p

module _ {S A : Type 0} {P : S → Type 0} where
  -- A body that establishes `P` when it succeeds makes a transaction that keeps `P` always.
  pub Keeps-in_tx : (body : Sql S A) → Ensures P body (λ a. P) → Keeps P (in_tx body)
  unfolding in_tx
  Keeps-in_tx body h =
      Keeps-bind _ (Keeps-statement _ (λ s p. p))
        (λ u. record { at = λ c p. Keeps-finish P c.db (body c) p (h.at c p) })

module _ {S A : Type 0} {P : S → Type 0} where
  -- A fact that the precondition carries may be used before the code runs.
  pub Ensures-using :
      {F : Type 0} {m : Sql S A} {Q : A → S → Type 0}
      → ((s : S) → P s → F)
      → (F → Ensures P m Q)
      → Ensures P m Q
  Ensures-using get h = record { at = λ c p. (h (get c.db p)).at c p }

  Holds-lift :
      (Q : A → S → Type 0) (r : Result A) (c : Conn S)
      → P c.db
      → ((a : A) (s : S) → P s → r ≡ ok a → Q a s)
      → Holds Q (lift r c)
  unfolding lift
  Holds-lift Q (ok a) c p h = h a c.db p refl
  Holds-lift Q (err e) c p h = tt

  -- What a check found out, when it passed.
  pub Ensures-lift :
      (Q : A → S → Type 0) (r : Result A)
      → ((a : A) (s : S) → P s → r ≡ ok a → Q a s)
      → Ensures P (lift r) Q
  Ensures-lift Q r h = record { at = λ c p. Holds-lift Q r c p h }

module _ {S A B : Type 0} {P : S → Type 0} where
  lift-continue :
      (verdict : Result A) (f : A → Sql S B) (c : Conn S)
      → ((a : A) → verdict ≡ ok a → Keeps P (f a))
      → P c.db
      → P (continue (lift verdict c) f).1.db
  unfolding lift
  lift-continue (ok a) f c h p = (h a refl).at c p
  lift-continue (err e) f c h p = p

  -- The rest of the block may use that the check passed.
  pub Keeps-bind-lift :
      (verdict : Result A) (rest : A → Sql S B)
      → ((a : A) → verdict ≡ ok a → Keeps P (rest a))
      → Keeps P (lift verdict >>= rest)
  unfolding ◌>>=◌
  Keeps-bind-lift verdict rest h = record { at = λ c p. lift-continue verdict rest c h p }

module _ {S A : Type 0} {P P' : S → Type 0} where
  pub Ensures-weaken :
      {m : Sql S A} {Q : A → S → Type 0} → ((s : S) → P s → P' s) → Ensures P' m Q → Ensures P m Q
  Ensures-weaken f h = record { at = λ c p. h.at c (f c.db p) }

module _ {S A : Type 0} where
  answered :
      (f : S → A) (faults : List Bool) (s : S)
      → ((e : Error) × (c' : Conn S) × (run_statement faults (λ x. (f x, x)) s ≡ (err e, c')))
        ⊎ ((c' : Conn S) × (run_statement faults (λ x. (f x, x)) s ≡ (ok (f s), c')) × (c'.db ≡ s))
  unfolding run_statement
  answered f [] s = inr (record { db = s; faults = [] }, refl, refl)
  answered f (true ∷ rest) s = inl (database, record { db = s; faults = rest }, refl)
  answered f (false ∷ rest) s = inr (record { db = s; faults = rest }, refl, refl)

  -- A query fails, or answers what it reads, and changes nothing.
  pub query-cases :
      (f : S → A) (c : Conn S)
      → ((e : Error) × (c' : Conn S) × (query f c ≡ (err e, c')))
        ⊎ ((c' : Conn S) × (query f c ≡ (ok (f c.db), c')) × (c'.db ≡ c.db))
  unfolding query statement
  query-cases f c = answered f c.faults c.db
