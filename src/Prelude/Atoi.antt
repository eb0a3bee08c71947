-- ===== src/Prelude/Atoi.antt =====
-- `strconv.Atoi` of Go, which is `strconv.ParseInt` of base 10 and 64 bits.
use Prim.Native.Char.{code}
use nms.Prelude.{
  ℕ, zero, suc, ◌+◌, ◌-◌, ◌*◌, ◌^◌, ◌&&◌, String, Option, none, some, ◌==◌, str_eq, ltb, leb, ℤ,
  pos, negsuc, if◌then◌else◌,
}

-- Decimal digits, behind those that gave `n`.
digits_from : ℕ → String → Option ℕ
digits_from n String.[] = some n
digits_from n (String.◌∷◌ c s) =
    let rest = digits_from (n * 10 + (code c - 48)) s in
    if leb 48 (code c) && leb (code c) 57 then rest else none

digits : String → Option ℕ
unfolding digits_from
digits s = if str_eq s "" then none else digits_from 0 s

-- An `int` has 64 bits.
positive_int : Option ℕ → Option ℤ
positive_int none = none
positive_int (some n) = if ltb n (2 ^ 63) then some (pos n) else none

negated : ℕ → ℤ
negated zero = pos 0
negated (suc n) = negsuc n

negative_int : Option ℕ → Option ℤ
unfolding negated
negative_int none = none
negative_int (some n) = if leb n (2 ^ 63) then some (negated n) else none

-- `none` is the error.
unfoldable pub atoi : String → Option ℤ
unfolding digits positive_int negative_int
atoi String.[] = none
atoi (String.◌∷◌ c s) =
    if code c == 45
    then negative_int (digits s)
    else if code c == 43
    then positive_int (digits s)
    else positive_int (digits (String.◌∷◌ c s))
