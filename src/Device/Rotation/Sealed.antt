-- ===== src/Device/Rotation/Sealed.antt =====
-- A change of the key stores no secret in plain text.
use nms.Prelude.{
  ℕ, refl, Bool, true, false, ◌&&◌, not, List, [], ◌∷◌, String, Option, none, some, ◌==◌, str_eq,
  trim_space, order_by, All, All-update_where, if◌then◌else◌,
}
use nms.Prelude.Result.{Result, Yields, Yields-bind, Yields-ok}
use nms.Sql.Rules.{
  Ensures, Keeps, Keeps-if, Keeps-bind, Keeps-pure, Keeps-query, Keeps-raise, Keeps-in_tx,
  Ensures-bind, Ensures-query, Ensures-lift,
}
use nms.Sql.Parts.{Keeps-exec, Keeps-bind-known, Ensures-kept}
use nms.Sql.Atomic.{Keeps-lift}
use nms.Device.Secrets.{Bytes, Crypto, Protector, Columns, new_secret_protector, value_or, has_enc}
use nms.Device.Secrets.Laws.{IsSealed, split_secret_for_storage-IsSealed}
use nms.Device.Tables.{DeviceColumns, DeviceDb}
use nms.Device.Repo.{Randoms}
use nms.Device.Repo.Kept.{IsKeptRow, AreKept}
use nms.Device.Rotation.{
  Stats, UpdateRow, secret_source, rotate_secret_value, rotate_row, count_row, rotate_rows, rotated,
  set_row, apply_updates, by_id, rotation, rotate_enabled, rotate_between,
  rotate_device_snmp_secrets,
}

record AreSealed (u : UpdateRow) : Type 0 where
  community : IsSealed u.community
  auth_pass : IsSealed u.auth_pass
  priv_pass : IsSealed u.priv_pass

Yields-if :
    {A : Type 0} {Q : A → Type 0} (b : Bool) (x y : Result A)
    → Yields Q x
    → Yields Q y
    → Yields Q (if b then x else y)
Yields-if true x y p q = p
Yields-if false x y p q = q

Yields-any : {A : Type 0} (r : Result A) → Yields (λ _. Unit {0}) r
Yields-any r = record { at = λ a e. tt }

module _ (k : Crypto) (old : Protector) (new : Bytes) where
  column-Yields :
      (random : Option Bytes) (c : Columns)
      → Yields (λ out. IsSealed out.0) (rotate_secret_value k old (some new) random c)
  unfolding rotate_secret_value
  column-Yields random c =
      Yields-if (str_eq (trim_space (value_or c.plain "")) "" && not (has_enc c.enc)) _ _
        (Yields-ok _ (record { no_plain = refl }))
        (Yields-bind (λ _. Unit {0}) _
          (Yields-any (secret_source k old (trim_space (value_or c.plain "")) c.enc))
          (λ source _.
            Yields-bind IsSealed _
              (record {
                at = λ next e. split_secret_for_storage-IsSealed k new random source next e;
              })
              (λ next s. Yields-ok _ s)))

  row-Yields :
      (random : Randoms) (row : DeviceColumns)
      → Yields (λ out. AreSealed out.0) (rotate_row k old (some new) random row)
  unfolding rotate_row
  row-Yields random row =
      Yields-bind (λ out. IsSealed out.0) _ (column-Yields random.for_community row.community)
        (λ c cs.
          Yields-bind (λ out. IsSealed out.0) _ (column-Yields random.for_auth_pass row.auth_pass)
            (λ a as'.
              Yields-bind (λ out. IsSealed out.0) _
                (column-Yields random.for_priv_pass row.priv_pass)
                (λ p ps. Yields-ok _ (record { community = cs; auth_pass = as'; priv_pass = ps }))))

  count_row-sealed :
      (x : UpdateRow × Bool) (acc : Stats × List UpdateRow)
      → AreSealed x.0
      → All AreSealed acc.1
      → All AreSealed (count_row x acc).1
  unfolding count_row
  count_row-sealed (u, true) (st, us) q h = (q, h)
  count_row-sealed (u, false) (st, us) q h = h

  rows-Yields :
      (random : ℕ → Randoms) (rows : List DeviceColumns)
      → Yields (λ out. All AreSealed out.1) (rotate_rows k old (some new) random rows)
  unfolding rotate_rows
  rows-Yields random [] = Yields-ok _ tt
  rows-Yields random (row ∷ rows) =
      Yields-bind (λ out. AreSealed out.0) _ (row-Yields (random row.id) row)
        (λ out s.
          Yields-bind (λ rest. All AreSealed rest.1) _ (rows-Yields random rows)
            (λ rest h. Yields-ok _ (count_row-sealed out rest s h)))

apply_updates-Keeps : (us : List UpdateRow) → All AreSealed us → Keeps AreKept (apply_updates us)
unfolding apply_updates
apply_updates-Keeps [] h = Keeps-pure tt
apply_updates-Keeps (u ∷ us) h =
    Keeps-bind _
      (Keeps-exec (set_row u) (λ s kept.
        All-update_where IsKeptRow (λ row. row.id == u.id) (rotated u) s.rows
          (λ row was hit. record {
            community = h.0.community;
            auth_pass = h.0.auth_pass;
            priv_pass = h.0.priv_pass;
            version = was.version;
          })
          kept))
      (λ _. apply_updates-Keeps us h.1)

module _ (k : Crypto) (random : ℕ → Randoms) where
  rotation-Keeps : (old new : Bytes) (P : DeviceDb → Type 0) → Keeps P (rotation k old new random)
  unfolding rotation
  rotation-Keeps old new P = Keeps-bind _ (Keeps-query _) (λ r. Keeps-lift r)

  rotation-Ensures :
      (old new : Bytes)
      → Ensures AreKept (rotation k old new random) (λ out s. All AreSealed out.1 × AreKept s)
  unfolding rotation
  rotation-Ensures old new =
      Ensures-bind (λ r s. Yields (λ out. All AreSealed out.1) r × AreKept s) _
        (Ensures-query _ _
          (λ s h. (rows-Yields k (some old) new random (order_by by_id s.rows), h)))
        (λ r. Ensures-lift _ r (λ out s h e. (h.0.at out e, h.1)))

  rotate_enabled-Keeps :
      (old new : Bytes) (dry_run : Bool) → Keeps AreKept (rotate_enabled k old new random dry_run)
  unfolding rotate_enabled
  rotate_enabled-Keeps old new dry_run =
      Keeps-if dry_run _ _
        (λ _.
          Keeps-bind _ (Keeps-exec (λ s. s) (λ s h. h))
            (λ _. Keeps-bind _ (rotation-Keeps old new AreKept) (λ out. Keeps-pure out.0)))
        (λ _. Keeps-in_tx _ (
          Ensures-kept _ (
            Keeps-bind-known (λ out. All AreSealed out.1) _ (rotation-Keeps old new AreKept)
              (rotation-Ensures old new)
              (λ out h. Keeps-bind _ (apply_updates-Keeps out.1 h) (λ _. Keeps-pure out.0)))))

  rotate_between-Keeps :
      (old new : Protector) (dry_run : Bool)
      → Keeps AreKept (rotate_between k old new random dry_run)
  unfolding rotate_between
  rotate_between-Keeps none new dry_run = Keeps-raise _
  rotate_between-Keeps (some old) none dry_run = Keeps-raise _
  rotate_between-Keeps (some old) (some new) dry_run = rotate_enabled-Keeps old new dry_run

pub rotate_device_snmp_secrets-Keeps :
    (k : Crypto) (old new : String) (random : ℕ → Randoms) (dry_run : Bool)
    → Keeps AreKept (rotate_device_snmp_secrets k old new random dry_run)
unfolding rotate_device_snmp_secrets
rotate_device_snmp_secrets-Keeps k old new random dry_run =
    rotate_between-Keeps k random (new_secret_protector k old) (new_secret_protector k new) dry_run
