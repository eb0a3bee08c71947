-- ===== src/Config.antt =====
-- internal/config/env_secret.go: a setting from the file that NAME_FILE names, or from NAME.
-- The process's environment and the file system are a parameter, `Os`.
use Prim.Native.String.{◌++◌}
use nms.Prelude.{ℕ, String, Option, none, some, ◌==◌, str_eq, trim_space, if◌then◌else◌}

pub record Os : Type 0 where
  pub getenv : String → String
  pub read_file : String → Option String

-- The text of a file that could be read, trimmed; "" when it could not.
file_value : Option String → String
file_value none = ""
file_value (some b) = trim_space b

unfoldable pub env_or_file : Os → String → String
unfolding file_value trim_space
env_or_file os name =
    let file_path = trim_space (os.getenv (name ++ "_FILE")) in
    let v = file_value (os.read_file file_path) in
    let direct = trim_space (os.getenv name) in
    if str_eq file_path "" then direct else if str_eq v "" then direct else v

-- `if err != nil || v <= 0 { return n }`, where what is not a number reads as none and what is not
-- positive as 0.
abbrev pub positive_or : ℕ → Option ℕ → ℕ
positive_or n none = n
positive_or n (some v) = if v == 0 then n else v
