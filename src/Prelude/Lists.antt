-- ===== src/Prelude/Lists.antt =====
-- Lists and tables: what the SQL statements and the loops need, over the native numbers.
use Prim.Native.Nat.{ℕ, zero, suc}
use mathlib.Core.Path.{◌≡◌, refl, subst}
use mathlib.Core.Logic.{inl, inr}
use mathlib.Core.Bool.{Bool, true, false, ◌||◌, ◌&&◌}
use mathlib.Core.List.{List, [], ◌∷◌, ◌++◌, Mem, mem-cons_self, mem-cons_of_mem}
use mathlib.Core.Option.{Option, none, some}
use native.Mathlib.Omega.{arith}
use nms.Prelude.Tests.{if◌then◌else◌, Bool-cases}

module _ {ℓ} {A : Type ℓ} where
  abbrev pub length : List A → ℕ
  length [] = 0
  length (x ∷ xs) = suc (length xs)

  abbrev pub take : ℕ → List A → List A
  take zero xs = []
  take (suc n) [] = []
  take (suc n) (x ∷ xs) = x ∷ take n xs

  abbrev pub drop : ℕ → List A → List A
  drop zero xs = xs
  drop (suc n) [] = []
  drop (suc n) (x ∷ xs) = drop n xs

  -- The first row that passes the test.
  abbrev pub find : (A → Bool) → List A → Option A
  find p [] = none
  find p (x ∷ xs) = if p x then some x else find p xs

  -- `UPDATE … SET f WHERE p`.
  abbrev pub update_where : (A → Bool) → (A → A) → List A → List A
  update_where p f [] = []
  update_where p f (x ∷ xs) = (if p x then f x else x) ∷ update_where p f xs

  -- `DELETE … WHERE p`.
  abbrev pub delete_where : (A → Bool) → List A → List A
  delete_where p [] = []
  delete_where p (x ∷ xs) = let rest = delete_where p xs in if p x then rest else x ∷ rest

  -- `SELECT … WHERE p`.
  abbrev pub select_where : (A → Bool) → List A → List A
  select_where p [] = []
  select_where p (x ∷ xs) = let rest = select_where p xs in if p x then x ∷ rest else rest

  abbrev pub any : (A → Bool) → List A → Bool
  any p [] = false
  any p (x ∷ xs) = p x || any p xs

-- Every element satisfies `P`.
module _ {ℓ κ} {A : Type ℓ} where
  abbrev pub All : (A → Type κ) → List A → Type κ
  All P [] = Unit
  All P (x ∷ xs) = P x × All P xs

  pub All-map : (P Q : A → Type κ) (xs : List A) → ((x : A) → P x → Q x) → All P xs → All Q xs
  All-map P Q [] f h = tt
  All-map P Q (x ∷ xs) f h = (f x h.0, All-map P Q xs f h.1)

  -- What a query finds passes its test, and satisfies what every row does.
  pub All-find :
      (P : A → Type κ) (p : A → Bool) (xs : List A) (x : A)
      → All P xs
      → find p xs ≡ some x
      → P x × (p x ≡ true)
  All-find P p [] x h e = cc
  All-find P p (y ∷ ys) x h e = elim (Bool-cases (p y)) [
    | inl hit ↦ let same : y ≡ x = ground arith in (subst P same h.0, rw (← same) hit)
    | inr miss ↦ All-find P p ys x h.1 (rw miss at e)
  ]

  pub All-update_where :
      (P : A → Type κ) (p : A → Bool) (f : A → A) (xs : List A)
      → ((x : A) → P x → p x ≡ true → P (f x))
      → All P xs
      → All P (update_where p f xs)
  All-update_where P p f [] k h = tt
  All-update_where P p f (x ∷ xs) k h = elim (Bool-cases (p x)) [
    | inl hit ↦ rw hit (k x h.0 hit, All-update_where P p f xs k h.1)
    | inr miss ↦ rw miss (h.0, All-update_where P p f xs k h.1)
  ]

module _ {ℓ} {A : Type ℓ} where
  pub All-Mem : (xs : List A) → All (λ x. Mem x xs) xs
  All-Mem [] = tt
  All-Mem (x ∷ xs) = (
    mem-cons_self {a = x} {l = xs},
    All-map (λ y. Mem y xs) (λ y. Mem y (x ∷ xs)) xs (λ y h. mem-cons_of_mem x h) (All-Mem xs),
  )

module _ {ℓ κ} {A : Type ℓ} where
  pub All-delete_where :
      (P : A → Type κ) (p : A → Bool) (xs : List A) → All P xs → All P (delete_where p xs)
  All-delete_where P p [] h = tt
  All-delete_where P p (x ∷ xs) h = elim (Bool-cases (p x)) [
    | inl hit ↦ rw hit (All-delete_where P p xs h.1)
    | inr miss ↦ rw miss (h.0, All-delete_where P p xs h.1)
  ]

  -- A selection keeps what holds of every row, and its rows pass the test.
  pub All-select_where :
      (P : A → Type κ) (p : A → Bool) (xs : List A)
      → All P xs
      → All (λ x. P x × (p x ≡ true)) (select_where p xs)
  All-select_where P p [] h = tt
  All-select_where P p (x ∷ xs) h = elim (Bool-cases (p x)) [
    | inl hit ↦ rw hit ((h.0, hit), All-select_where P p xs h.1)
    | inr miss ↦ rw miss (All-select_where P p xs h.1)
  ]

module _ {ℓ} {A : Type ℓ} where
  pub select_where-none :
      (p : A → Bool) (xs : List A) → select_where p xs ≡ [] → All (λ x. p x ≡ false) xs
  select_where-none p [] e = tt
  select_where-none p (x ∷ xs) e = elim (Bool-cases (p x)) [
    | inl hit ↦ let bad : ◌≡◌ {A = List A} (x ∷ select_where p xs) [] = rw hit at e in cc
    | inr miss ↦ (miss, select_where-none p xs (rw miss at e))
  ]

  -- What no selected row passes, no row passes that would be selected.
  pub select_where-All :
      (p q : A → Bool) (xs : List A)
      → All (λ x. q x ≡ false) (select_where p xs)
      → All (λ x. (p x && q x) ≡ false) xs
  select_where-All p q [] h = tt
  select_where-All p q (x ∷ xs) h = elim (Bool-cases (p x)) [
    | inl hit ↦ let k = rw hit at h in (rw hit k.0, select_where-All p q xs k.1)
    | inr miss ↦ (rw miss refl, select_where-All p q xs (rw miss at h))
  ]

  -- What holds of every row holds of one that stands somewhere.
  pub All-middle : (P : A → Type 0) (front back : List A) (m : A) → All P (front ++ m ∷ back) → P m
  All-middle P [] back m h = h.0
  All-middle P (x ∷ front) back m h = All-middle P front back m h.1
