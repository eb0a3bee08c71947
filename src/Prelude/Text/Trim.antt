-- ===== src/Prelude/Text/Trim.antt =====
-- A text that `strings.TrimSpace` gave has no space to trim.
use Prim.Native.Char.{code}
use Prim.Native.String.{String, [], ◌∷◌}
use mathlib.Core.Path.{◌≡◌, refl}
use mathlib.Core.Logic.{inl, inr}
use mathlib.Core.Bool.{false, ◌&&◌}
use text.Mathlib.Text.{◌==◌ as str_eq}
use nms.Prelude.Tests.{Bool-cases}
use nms.Prelude.Text.{is_space, trim_left, trim_right, trim_space}

-- Its first letter, if any, is no space.
StartsSolid : String → Type 0
StartsSolid [] = Unit
StartsSolid (c ∷ s) = is_space (code c) ≡ false

trim_left-StartsSolid : (s : String) → StartsSolid (trim_left s)
unfolding trim_left StartsSolid
trim_left-StartsSolid [] = tt
trim_left-StartsSolid (c ∷ s) = elim (Bool-cases (is_space (code c))) [
  | inl space ↦ rw space (trim_left-StartsSolid s)
  | inr solid ↦ rw solid solid
]

trim_left_solid : (s : String) → StartsSolid s → trim_left s ≡ s
unfolding trim_left StartsSolid
trim_left_solid [] h = refl
trim_left_solid (c ∷ s) h = rw h refl

trim_right-StartsSolid : (s : String) → StartsSolid s → StartsSolid (trim_right s)
unfolding trim_right StartsSolid
trim_right-StartsSolid [] h = tt
trim_right-StartsSolid (c ∷ s) h = rw h h

trim_right_twice : (s : String) → trim_right (trim_right s) ≡ trim_right s
unfolding trim_right
trim_right_twice [] = refl
trim_right_twice (c ∷ s) = elim (Bool-cases (is_space (code c) && str_eq (trim_right s) "")) [
  | inl gone ↦ rw gone refl
  | inr kept ↦ rw kept (rw (trim_right_twice s) (rw kept refl))
]

pub trim_space_twice : (s : String) → trim_space (trim_space s) ≡ trim_space s
unfolding trim_space
trim_space_twice s =
    rw
      (trim_left_solid (trim_right (trim_left s))
        (trim_right-StartsSolid _ (trim_left-StartsSolid s)))
      (trim_right_twice (trim_left s))
