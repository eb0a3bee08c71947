-- ===== src/Prelude/Assoc.antt =====
-- A Go map with string keys, as an association list. Its loops over a map only delete or count, so
-- the order of the entries shows in no result.
use mathlib.Core.Path.{◌≡◌, refl}
use mathlib.Core.Bool.{Bool, false}
use mathlib.Core.Option.{Option, none, some}
use mathlib.Core.List.{List, [], ◌∷◌}
use Prim.Native.String.{String}
use native.Mathlib.Omega.{arith}
use text.Mathlib.Text.{◌==◌ as str_eq}
use text.Mathlib.TextEquality.{eq_iff}
use nms.Prelude.Tests.{if◌then◌else◌}

abbrev pub GoMap {ℓ} : Type ℓ → Type ℓ
GoMap V = List (String × V)

module _ {ℓ} {V : Type ℓ} where
  -- `m[key]`.
  unfoldable pub lookup : String → GoMap V → Option V
  lookup key [] = none
  lookup key ((own, held) ∷ others) = if str_eq key own then some held else lookup key others

  -- `m[key] = value`.
  unfoldable pub insert : String → V → GoMap V → GoMap V
  insert key value [] = (key, value) ∷ []
  insert key value ((own, held) ∷ others) =
      let later = insert key value others in
      if str_eq key own then (own, value) ∷ others else (own, held) ∷ later

  -- `delete(m, key)`.
  unfoldable pub delete : String → GoMap V → GoMap V
  delete key [] = []
  delete key ((own, held) ∷ others) =
      let later = delete key others in if str_eq key own then later else (own, held) ∷ later

  -- The loop that deletes the entries that pass a test.
  unfoldable pub sweep : (V → Bool) → GoMap V → GoMap V
  sweep test [] = []
  sweep test ((own, held) ∷ others) =
      let later = sweep test others in if test held then later else (own, held) ∷ later

  pub lookup-insert :
      (key other : String) (value : V) (entries : GoMap V)
      → lookup other (insert key value entries)
        ≡ (if str_eq key other then some value else lookup other entries)
  unfolding lookup insert
  lookup-insert key other value [] = ground (arith, eq_iff key other, eq_iff other key)
  lookup-insert key other value ((own, held) ∷ others) =
      let later = lookup-insert key other value others in
      ground (arith, eq_iff key other, eq_iff key own, eq_iff other own, later)

  pub lookup-delete :
      (key other : String) (entries : GoMap V)
      → lookup other (delete key entries)
        ≡ (if str_eq key other then none else lookup other entries)
  unfolding lookup delete
  lookup-delete key other [] = ground arith
  lookup-delete key other ((own, held) ∷ others) =
      let later = lookup-delete key other others in
      ground (arith, eq_iff key other, eq_iff key own, eq_iff other own, later)

  -- An entry that does not pass the test stays. (Keys are not repeated in a map; the entry that is
  -- found is the first one.)
  pub lookup-sweep_stays :
      (test : V → Bool) (key : String) (entries : GoMap V) (value : V)
      → lookup key entries ≡ some value
      → test value ≡ false
      → lookup key (sweep test entries) ≡ some value
  unfolding lookup sweep
  lookup-sweep_stays test key [] value found kept = cc
  lookup-sweep_stays test key ((own, held) ∷ others) value found kept =
      ground (arith, lookup-sweep_stays test key others value)

  pub lookup-sweep-none :
      (test : V → Bool) (key : String) (entries : GoMap V)
      → lookup key entries ≡ none
      → lookup key (sweep test entries) ≡ none
  unfolding lookup sweep
  lookup-sweep-none test key [] missing = refl
  lookup-sweep-none test key ((own, held) ∷ others) missing =
      ground (arith, lookup-sweep-none test key others)
