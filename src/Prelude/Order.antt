-- ===== src/Prelude/Order.antt =====
-- `ORDER BY`: the rows sorted by a test that says which of two comes first, and `LIMIT 1` of them.
use Prim.Native.Nat.{suc}
use mathlib.Core.Path.{◌≡◌, refl, ap, ◌∙◌, subst}
use mathlib.Core.Logic.{◌≢◌, inl, inr}
use mathlib.Core.Bool.{Bool, true, false, ◌||◌}
use mathlib.Core.Option.{Option, none, some}
use mathlib.Core.List.{List, [], ◌∷◌}
use native.Mathlib.Omega.{arith}
use nms.Prelude.Tests.{if◌then◌else◌, Bool-cases}
use nms.Prelude.Lists.{All, All-map, any, length}

module _ {A : Type 0} where
  abbrev pub insert_by : (A → A → Bool) → A → List A → List A
  insert_by before x [] = x ∷ []
  insert_by before x (y ∷ ys) =
      let rest = insert_by before x ys in if before y x then y ∷ rest else x ∷ y ∷ ys

  abbrev pub order_by : (A → A → Bool) → List A → List A
  order_by before [] = []
  order_by before (x ∷ xs) = insert_by before x (order_by before xs)

  abbrev pub first : List A → Option A
  first [] = none
  first (x ∷ xs) = some x

  -- No row comes before one that stands in front of it.
  abbrev pub IsOrdered : (A → A → Bool) → List A → Type 0
  IsOrdered before [] = Unit
  IsOrdered before (x ∷ xs) = All (λ y. before y x ≡ false) xs × IsOrdered before xs

  All-insert_by :
      (P : A → Type 0) (before : A → A → Bool) (x : A) (ys : List A)
      → P x
      → All P ys
      → All P (insert_by before x ys)
  All-insert_by P before x [] p h = (p, tt)
  All-insert_by P before x (y ∷ ys) p h = elim (Bool-cases (before y x)) [
    | inl hit ↦ rw hit (h.0, All-insert_by P before x ys p h.1)
    | inr miss ↦ rw miss (p, h)
  ]

  insert_by-All :
      (P : A → Type 0) (before : A → A → Bool) (x : A) (ys : List A)
      → All P (insert_by before x ys)
      → P x × All P ys
  insert_by-All P before x [] h = (h.0, tt)
  insert_by-All P before x (y ∷ ys) h = elim (Bool-cases (before y x)) [
    | inl hit ↦
        let k = rw hit at h in let (px, pys) = insert_by-All P before x ys k.1 in (px, (k.0, pys))
    | inr miss ↦ rw miss at h
  ]

  pub All-order_by :
      (P : A → Type 0) (before : A → A → Bool) (xs : List A) → All P xs → All P (order_by before xs)
  All-order_by P before [] h = tt
  All-order_by P before (x ∷ xs) h =
      All-insert_by P before x (order_by before xs) h.0 (All-order_by P before xs h.1)

  order_by-All :
      (P : A → Type 0) (before : A → A → Bool) (xs : List A) → All P (order_by before xs) → All P xs
  order_by-All P before [] h = tt
  order_by-All P before (x ∷ xs) h =
      let (px, pys) = insert_by-All P before x (order_by before xs) h in
      (px, order_by-All P before xs pys)

-- What a test must satisfy to order rows.
pub record IsBefore {A : Type 0} (before : A → A → Bool) : Type 0 where
  pub not_itself : (x : A) → before x x ≡ false
  pub one_way : (x y : A) → before x y ≡ true → before y x ≡ false
  pub through : (x y z : A) → before z y ≡ false → before y x ≡ false → before z x ≡ false

module _ {A : Type 0} (before : A → A → Bool) (law : IsBefore before) where
  insert_by-IsOrdered :
      (x : A) (ys : List A) → IsOrdered before ys → IsOrdered before (insert_by before x ys)
  insert_by-IsOrdered x [] h = (tt, tt)
  insert_by-IsOrdered x (y ∷ ys) h = elim (Bool-cases (before y x)) [
    | inl hit ↦ rw hit (
      All-insert_by (λ z. before z y ≡ false) before x ys (law.one_way y x hit) h.0,
      insert_by-IsOrdered x ys h.1,
    )
    | inr miss ↦ rw miss (
      (
        miss,
        All-map (λ z. before z y ≡ false) (λ z. before z x ≡ false) ys
            (λ z q. law.through x y z q miss) h.0,
      ),
      h,
    )
  ]

  pub order_by-IsOrdered : (xs : List A) → IsOrdered before (order_by before xs)
  order_by-IsOrdered [] = tt
  order_by-IsOrdered (x ∷ xs) = insert_by-IsOrdered x (order_by before xs) (order_by-IsOrdered xs)

  head_first :
      (r : A) (ys : List A)
      → IsOrdered before ys
      → first ys ≡ some r
      → All (λ y. before y r ≡ false) ys
  head_first r [] h e = cc
  head_first r (y ∷ ys) h e =
      let same : y ≡ r = ground arith in
      subst (λ r. All (λ z. before z r ≡ false) (y ∷ ys)) same (law.not_itself y, h.0)

  first-All : (P : A → Type 0) (ys : List A) (r : A) → All P ys → first ys ≡ some r → P r
  first-All P [] r k q = cc
  first-All P (y ∷ ys) r k q = let same : y ≡ r = ground arith in subst P same k.0

  -- The first row of an ordered table: what holds of every row holds of it, and none is before it.
  pub first-order_by :
      (P : A → Type 0) (xs : List A) (r : A)
      → All P xs
      → first (order_by before xs) ≡ some r
      → P r × All (λ y. before y r ≡ false) xs
  first-order_by P xs r h e = (
    first-All P (order_by before xs) r (All-order_by P before xs h) e,
    order_by-All (λ y. before y r ≡ false) before xs
        (head_first r (order_by before xs) (order_by-IsOrdered xs) e),
  )

  insert_by-first : (x : A) (ys : List A) → first (insert_by before x ys) ≢ none
  insert_by-first x [] q = cc
  insert_by-first x (y ∷ ys) q = elim (Bool-cases (before y x)) [
    | inl hit ↦ let k = rw hit at q in cc
    | inr miss ↦ let k = rw miss at q in cc
  ]

  -- An empty answer means an empty table.
  pub first-none : (xs : List A) → first (order_by before xs) ≡ none → xs ≡ []
  first-none [] e = refl
  first-none (x ∷ xs) e = absurd (insert_by-first x (order_by before xs) e)

module _ {A : Type 0} (p : A → Bool) (before : A → A → Bool) where
  or_swap : (a b c : Bool) → a || (b || c) ≡ b || (a || c)
  or_swap true true c = refl
  or_swap true false c = refl
  or_swap false b c = refl

  any-insert_by : (x : A) (ys : List A) → any p (insert_by before x ys) ≡ p x || any p ys
  any-insert_by x [] = refl
  any-insert_by x (y ∷ ys) = elim (Bool-cases (before y x)) [
    | inl hit ↦ rw hit (rw (any-insert_by x ys) (or_swap (p y) (p x) (any p ys)))
    | inr miss ↦ rw miss refl
  ]

  -- A row that passes a test does so in any order.
  pub any-order_by : (xs : List A) → any p (order_by before xs) ≡ any p xs
  any-order_by [] = refl
  any-order_by (x ∷ xs) = rw (any-insert_by x (order_by before xs)) (rw (any-order_by xs) refl)

module _ {A : Type 0} (before : A → A → Bool) where
  length-insert_by : (x : A) (ys : List A) → length (insert_by before x ys) ≡ length (x ∷ ys)
  length-insert_by x [] = refl
  length-insert_by x (y ∷ ys) = elim (Bool-cases (before y x)) [
    | inl hit ↦ rw hit (ap suc (length-insert_by x ys))
    | inr miss ↦ rw miss refl
  ]

  pub length-order_by : (xs : List A) → length (order_by before xs) ≡ length xs
  length-order_by [] = refl
  length-order_by (x ∷ xs) = length-insert_by x (order_by before xs) ∙ ap suc (length-order_by xs)
