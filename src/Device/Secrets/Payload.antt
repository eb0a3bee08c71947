-- ===== src/Device/Secrets/Payload.antt =====
-- The text that an encrypted column holds: the prefix, and what stands behind it.
use Prim.Native.String.append
use Prim.Native.String.compare
use Prim.Native.String.{◌++◌, char_at}
use text.Mathlib.TextPositions.{starts_with-append}
use nms.Prelude.{◌≡◌, refl, true, false, String, str_eq, trim_space, has_prefix, text_drop}

pub payload_prefix : (s : String) → has_prefix ("enc:v1:" ++ s) "enc:v1:" ≡ true
unfolding has_prefix
payload_prefix s = starts_with-append "enc:v1:" s

pub payload_rest : (s : String) → text_drop 7 ("enc:v1:" ++ s) ≡ s
unfolding text_drop
payload_rest s = rw (append.cons (char_at "e" 0) "nc:v1:" s) (
    rw (append.cons (char_at "n" 0) "c:v1:" s) (
      rw (append.cons (char_at "c" 0) ":v1:" s) (
        rw (append.cons (char_at ":" 0) "v1:" s) (
          rw (append.cons (char_at "v" 0) "1:" s) (
            rw (append.cons (char_at "1" 0) ":" s)
              (rw (append.cons (char_at ":" 0) "" s) (append.nil s)))))))

pub payload_kept : (s : String) → str_eq (trim_space ("enc:v1:" ++ s)) "" ≡ false
unfolding trim_space
payload_kept s =
    rw (append.cons (char_at "e" 0) "nc:v1:" s) (rw (compare.cons-nil (char_at "e" 0) _) refl)
