-- ===== src/Device/Tables.antt =====
-- The devices table with all its columns, and domain.Device (internal/domain/device.go).
-- A time is a number, and `none` the zero time of Go; `now` is what NOW() answers. An id is a
-- number, 0 standing for every one that is not positive. `name` is never NULL: the code stores a
-- text.
use nms.Prelude.{ℕ, Bool, List, String, Option}
use nms.Device.Secrets.{Columns}
pub use nms.Device.Secrets.{value_or}

pub record Device : Type 0 where
  pub id : ℕ
  pub ip : String
  pub name : String
  pub community : String
  pub snmp_version : String
  pub auth_proto : String
  pub auth_pass : String
  pub priv_proto : String
  pub priv_pass : String
  pub version : String
  pub status : String
  pub created_at : ℕ
  pub last_seen : Option ℕ
  pub last_error : String
  pub last_error_at : Option ℕ
  pub last_poll_ok_at : Option ℕ

pub record DeviceColumns : Type 0 where
  pub id : ℕ
  pub ip : String
  pub name : String
  pub community : Columns
  pub snmp_version : Option String
  pub auth_proto : Option String
  pub auth_pass : Columns
  pub priv_proto : Option String
  pub priv_pass : Columns
  pub version : Option String
  pub status : Option String
  pub created_at : Option ℕ
  pub last_seen : Option ℕ
  pub last_error : Option String
  pub last_error_at : Option ℕ
  pub last_poll_ok_at : Option ℕ

pub record DeviceDb : Type 0 where
  pub rows : List DeviceColumns
  pub next_id : ℕ
  pub now : ℕ

-- The INET type of the database: the text that an address comes back as, if it is one, and the
-- order of the addresses.
pub record Inet : Type 0 where
  pub canonical : String → Option String
  pub before : String → String → Bool
