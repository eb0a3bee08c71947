-- ===== src/Device/Rotation/Row.antt =====
-- The change of the key, for the secrets of one device.
use nms.Prelude.{◌≡◌, refl, Bool, false, ◌||◌, String, Option, none, some, trim_space}
use nms.Prelude.Result.{ok}
use nms.Device.Secrets.{Bytes, Crypto, Columns, merge_secret_from_storage}
use nms.Device.Secrets.Laws.{IsCipher, IsDrawn}
use nms.Device.Tables.{DeviceColumns}
use nms.Device.Repo.{Randoms}
use nms.Device.Repo.Roundtrip.{AreDrawn}
use nms.Device.Rotation.{UpdateRow, rotate_secret_value, rotate_row, rotated}
use nms.Device.Rotation.Column.{
  IsRead, IsPlaced, rotate_secret_value-IsPlaced, or_false_left, or_false_right,
}

-- The key reads the three secrets of the device.
pub record IsReadable (k : Crypto) (key : Bytes) (row : DeviceColumns) : Type 0 where
  pub community : String
  pub auth_pass : String
  pub priv_pass : String
  pub community_read : merge_secret_from_storage k (some key) row.community ≡ ok community
  pub auth_pass_read : merge_secret_from_storage k (some key) row.auth_pass ≡ ok auth_pass
  pub priv_pass_read : merge_secret_from_storage k (some key) row.priv_pass ≡ ok priv_pass

-- The new key reads in a row what the old one read, and nothing else of the row is new.
pub record IsCarried (k : Crypto) (old new : Bytes) (row row' : DeviceColumns) : Type 0 where
  pub readable : IsReadable k old row
  pub community : IsRead k (some new) row'.community (trim_space readable.community)
  pub auth_pass : IsRead k (some new) row'.auth_pass (trim_space readable.auth_pass)
  pub priv_pass : IsRead k (some new) row'.priv_pass (trim_space readable.priv_pass)
  pub rest : row' ≡ record row {
    community = row'.community;
    auth_pass = row'.auth_pass;
    priv_pass = row'.priv_pass;
  }

-- What the loop makes of a row it can read.
pub record IsTreated (k : Crypto) (old new : Bytes) (random : Randoms) (row : DeviceColumns)
    : Type 0 where
  pub out : UpdateRow × Bool
  pub made_ok : rotate_row k (some old) (some new) random row ≡ ok out
  pub of_row : out.0.id ≡ row.id
  pub carried : IsCarried k old new row (rotated out.0 row)
  pub stayed : out.1 ≡ false → IsCarried k old new row row
  pub community_hidden : out.0.community.plain ≡ none
  pub auth_pass_hidden : out.0.auth_pass.plain ≡ none
  pub priv_pass_hidden : out.0.priv_pass.plain ≡ none

module _ (k : Crypto) (law : IsCipher k) (old new : Bytes) where
  column :
      (random : Option Bytes) (c : Columns) (t : String)
      → IsDrawn k random
      → merge_secret_from_storage k (some old) c ≡ ok t
      → IsPlaced k new c (trim_space t) (rotate_secret_value k (some old) (some new) random c)
  column random c t drawn reads =
      rw drawn.is_read (rotate_secret_value-IsPlaced k law old new drawn.bytes drawn.fits c t reads)

  pub rotate_row-IsTreated :
      (random : Randoms) (row : DeviceColumns)
      → AreDrawn k random
      → IsReadable k old row
      → IsTreated k old new random row
  unfolding rotate_row
  rotate_row-IsTreated random row drawn r =
      let c =
        column random.for_community row.community r.community drawn.community r.community_read in
      let a =
        column random.for_auth_pass row.auth_pass r.auth_pass drawn.auth_pass r.auth_pass_read in
      let p =
        column random.for_priv_pass row.priv_pass r.priv_pass drawn.priv_pass r.priv_pass_read in
      record {
        out = (
          record { id = row.id; community = c.out.0; auth_pass = a.out.0; priv_pass = p.out.0 },
          c.out.1 || a.out.1 || p.out.1,
        );
        made_ok = rw c.made_ok (rw a.made_ok (rw p.made_ok refl));
        of_row = refl;
        carried = record {
          readable = r;
          community = c.is_moved.moved;
          auth_pass = a.is_moved.moved;
          priv_pass = p.is_moved.moved;
          rest = refl;
        };
        stayed = λ h. record {
          readable = r;
          community =
              c.is_moved.stayed
                (or_false_left c.out.1 a.out.1 (or_false_left (c.out.1 || a.out.1) p.out.1 h));
          auth_pass =
              a.is_moved.stayed
                (or_false_right c.out.1 a.out.1 (or_false_left (c.out.1 || a.out.1) p.out.1 h));
          priv_pass = p.is_moved.stayed (or_false_right (c.out.1 || a.out.1) p.out.1 h);
          rest = refl;
        };
        community_hidden = c.is_moved.hidden;
        auth_pass_hidden = a.is_moved.hidden;
        priv_pass_hidden = p.is_moved.hidden;
      }
