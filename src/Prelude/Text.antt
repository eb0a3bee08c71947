-- ===== src/Prelude/Text.antt =====
-- `strings.TrimSpace`, `strings.ToLower` and `strings.HasPrefix` of Go, over the code points of a text.
pub mod Trim
use Prim.Native.Nat.{ℕ, zero, suc, ◌-◌, ◌+◌}
use mathlib.Core.Option.{Option, none, some}
use Prim.Native.Char.{Char, code}
use Prim.Native.String.{String, [], ◌∷◌, char_at}
use mathlib.Core.Bool.{Bool, ◌&&◌, ◌||◌}
use mathlib.Core.List.{List, [] as nil, ◌∷◌ as cons}
use text.Mathlib.Text.{starts_with, ◌==◌ as str_eq}
use nms.Prelude.Tests.{leb, ◌==◌, if◌then◌else◌}

-- `unicode.IsSpace`.
is_space : ℕ → Bool
is_space c =
    (leb 9 c && leb c 13)
    || c == 32
    || c == 133
    || c == 160
    || c == 5760
    || (leb 8192 c && leb c 8202)
    || c == 8232
    || c == 8233
    || c == 8239
    || c == 8287
    || c == 12288

trim_left : String → String
unfolding is_space
trim_left [] = []
trim_left (c ∷ s) = let rest = trim_left s in if is_space (code c) then rest else c ∷ s

trim_right : String → String
unfolding is_space
trim_right [] = []
trim_right (c ∷ s) =
    let rest = trim_right s in if is_space (code c) && str_eq rest "" then "" else c ∷ rest

unfoldable pub trim_space : String → String
unfolding trim_left trim_right
trim_space s = trim_right (trim_left s)

-- Letters of ASCII, and the two other code points whose lower case is one (U+0130 and U+212A).
-- Other letters stay: the texts are compared with ASCII constants only.
lower_char : Char → Char
lower_char c =
    if leb 65 (code c) && leb (code c) 90
    then char_at "abcdefghijklmnopqrstuvwxyz" (code c - 65)
    else if code c == 304
    then char_at "i" 0
    else if code c == 8490
    then char_at "k" 0
    else c

unfoldable pub to_lower : String → String
unfolding lower_char
to_lower [] = []
to_lower (c ∷ s) = lower_char c ∷ to_lower s

unfoldable pub has_prefix : String → String → Bool
has_prefix s prefix = starts_with s prefix

-- A slice `s[n:]` that starts behind n code points.
unfoldable pub text_drop : ℕ → String → String
text_drop zero s = s
text_drop (suc n) [] = []
text_drop (suc n) (c ∷ s) = text_drop n s

-- `strings.EqualFold`, for one side in ASCII: simple folding also takes U+017F to `s`, and leaves
-- U+0130 alone.
fold_char : Char → Char
fold_char c =
    if leb 65 (code c) && leb (code c) 90
    then char_at "abcdefghijklmnopqrstuvwxyz" (code c - 65)
    else if code c == 383
    then char_at "s" 0
    else if code c == 8490
    then char_at "k" 0
    else c

fold_text : String → String
unfolding fold_char
fold_text [] = []
fold_text (c ∷ s) = fold_char c ∷ fold_text s

unfoldable pub equal_fold : String → String → Bool
unfolding fold_text
equal_fold s t = str_eq (fold_text s) (fold_text t)

-- `strings.Contains`.
unfoldable pub contains : String → String → Bool
contains [] sub = str_eq sub ""
contains (c ∷ s) sub = starts_with (c ∷ s) sub || contains s sub

abbrev one_later : Option ℕ → Option ℕ
one_later none = none
one_later (some i) = some (i + 1)

-- `strings.Index`, counted in code points; `none` is -1.
unfoldable pub index : String → String → Option ℕ
index [] sub = if str_eq sub "" then some 0 else none
index (c ∷ s) sub =
    let later = index s sub in if starts_with (c ∷ s) sub then some 0 else one_later later

abbrev onto_part : Char → List String → List String
onto_part c nil = cons (c ∷ []) nil
onto_part c (cons p ps) = cons (c ∷ p) ps

-- `strings.Split(s, ".")`.
unfoldable pub split_dots : String → List String
split_dots [] = cons "" nil
split_dots (c ∷ s) =
    let rest = split_dots s in if code c == 46 then cons "" rest else onto_part c rest
