-- ===== src/Device/Rotation/Atomic.antt =====
-- A change of the key that fails, or that is a dry run, changes nothing.
use nms.Prelude.{ℕ, ◌≡◌, refl, Bool, true, false, String, none, some}
use nms.Prelude.Result.{Result}
use nms.Sql.{Conn, raise}
use nms.Sql.Rules.{Keeps, Keeps-bind, Keeps-pure, Keeps-query}
use nms.Sql.Parts.{Keeps-exec}
use nms.Sql.Atomic.{IsSafe, in_tx-IsSafe, Keeps-lift}
use nms.Device.Secrets.{Bytes, Crypto, Protector, new_secret_protector}
use nms.Device.Tables.{DeviceDb}
use nms.Device.Repo.{Randoms}
use nms.Device.Rotation.{
  Stats, rotation, rotate_enabled, rotate_between, rotate_device_snmp_secrets,
}

-- The tables of before, unless the change was asked for and answered without an error.
abbrev pub IsAsAsked : {A : Type 0} → Bool → DeviceDb → Result A × Conn DeviceDb → Type 0
IsAsAsked true before (r, c) = c.db ≡ before
IsAsAsked false before (r, c) = IsSafe before (r, c)

module _ (k : Crypto) (random : ℕ → Randoms) where
  dry_run-Keeps :
      (old new : Bytes) (P : DeviceDb → Type 0) → Keeps P (rotate_enabled k old new random true)
  unfolding rotate_enabled rotation
  dry_run-Keeps old new P = Keeps-bind _ (Keeps-exec (λ s. s) (λ s p. p)) (λ u.
      Keeps-bind _ (Keeps-bind _ (Keeps-query _) (λ r. Keeps-lift r)) (λ out. Keeps-pure out.0))

  rotate_enabled-IsAsAsked :
      (old new : Bytes) (dry_run : Bool) (c : Conn DeviceDb)
      → IsAsAsked dry_run c.db (rotate_enabled k old new random dry_run c)
  unfolding rotate_enabled
  rotate_enabled-IsAsAsked old new true c = (dry_run-Keeps old new (λ s. s ≡ c.db)).at c refl
  rotate_enabled-IsAsAsked old new false c = in_tx-IsSafe _ c

  refused-IsAsAsked :
      (dry_run : Bool) (c : Conn DeviceDb) (r : Result Stats)
      → (IsSafe c.db (r, c))
      → IsAsAsked dry_run c.db (r, c)
  refused-IsAsAsked true c r h = refl
  refused-IsAsAsked false c r h = h

  rotate_between-IsAsAsked :
      (old new : Protector) (dry_run : Bool) (c : Conn DeviceDb)
      → IsAsAsked dry_run c.db (rotate_between k old new random dry_run c)
  unfolding rotate_between raise
  rotate_between-IsAsAsked none new dry_run c = refused-IsAsAsked dry_run c _ refl
  rotate_between-IsAsAsked (some old) none dry_run c = refused-IsAsAsked dry_run c _ refl
  rotate_between-IsAsAsked (some old) (some new) dry_run c =
      rotate_enabled-IsAsAsked old new dry_run c

  -- Whatever the database refuses, the cipher cannot open or crypto/rand fails to give, a dry run
  -- leaves the table as it was, and so does a change of the key that answers an error.
  pub rotate_device_snmp_secrets-IsAsAsked :
      (old new : String) (dry_run : Bool) (c : Conn DeviceDb)
      → IsAsAsked dry_run c.db (rotate_device_snmp_secrets k old new random dry_run c)
  unfolding rotate_device_snmp_secrets
  rotate_device_snmp_secrets-IsAsAsked old new dry_run c =
      rotate_between-IsAsAsked (new_secret_protector k old) (new_secret_protector k new) dry_run c
