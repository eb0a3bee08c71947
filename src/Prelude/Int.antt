-- ===== src/Prelude/Int.antt =====
-- A Go `int` that may be negative, over the native numbers.
use Prim.Native.Nat.{ℕ}
use mathlib.Core.Bool.{Bool, true, false}
use mathlib.Core.Path.{◌≡◌, refl, ap}
use native.Mathlib.Omega.{arith}
use nms.Prelude.Tests.{ltb, ◌==◌, if◌then◌else◌}

pub data ℤ : Type 0 where
  pos : ℕ → ℤ
  negsuc : ℕ → ℤ

-- `a < b`.
abbrev pub int_lt : ℤ → ℤ → Bool
int_lt (pos a) (pos b) = ltb a b
int_lt (pos a) (negsuc b) = false
int_lt (negsuc a) (pos b) = true
int_lt (negsuc a) (negsuc b) = ltb b a

abbrev pub int_eq : ℤ → ℤ → Bool
int_eq (pos a) (pos b) = a == b
int_eq (pos a) (negsuc b) = false
int_eq (negsuc a) (pos b) = false
int_eq (negsuc a) (negsuc b) = a == b

-- `if priority == 0 { priority = v }`.
abbrev pub int_or : ℤ → ℤ → ℤ
int_or v p = if int_eq p (pos 0) then v else p

pub int_lt_irreflexive : (a : ℤ) → int_lt a a ≡ false
int_lt_irreflexive (pos a) = ground arith
int_lt_irreflexive (negsuc a) = ground arith

pub int_lt_one_way : (a b : ℤ) → int_lt a b ≡ true → int_lt b a ≡ false
int_lt_one_way (pos a) (pos b) h = ground arith
int_lt_one_way (pos a) (negsuc b) h = cc
int_lt_one_way (negsuc a) (pos b) h = refl
int_lt_one_way (negsuc a) (negsuc b) h = ground arith

pub int_lt_through : (a b c : ℤ) → int_lt a b ≡ true → int_lt a c ≡ false → int_lt c b ≡ true
int_lt_through (pos a) (pos b) (pos c) h k = ground arith
int_lt_through (pos a) (pos b) (negsuc c) h k = refl
int_lt_through (pos a) (negsuc b) c h k = cc
int_lt_through (negsuc a) b (pos c) h k = cc
int_lt_through (negsuc a) (pos b) (negsuc c) h k = refl
int_lt_through (negsuc a) (negsuc b) (negsuc c) h k = ground arith

pub int_same : (a b : ℤ) → int_lt a b ≡ false → int_lt b a ≡ false → a ≡ b
int_same (pos a) (pos b) h k = let e : a ≡ b = ground arith in ap pos e
int_same (pos a) (negsuc b) h k = cc
int_same (negsuc a) (pos b) h k = cc
int_same (negsuc a) (negsuc b) h k = let e : a ≡ b = ground arith in ap negsuc e
