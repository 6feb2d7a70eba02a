-- ===== src/Destinations/Zfs.antt =====
-- destinations/zfs.go.
use uback.Base.{
  ℕ, Bool, true, false, not, ◌&&◌, Option, none, some, List, [], ◌∷◌, ◌++◌, Bytes, codes,
  cut_prefix, is_empty, if◌then◌else◌, Result, ok, err, Error, ◌>>=◌,
}
use uback.Options.{Options, Packages, get, get_command, get_boolean, get_string}
use uback.Sources.Zfs.{when, send_words}
pub mod Datasets

pub record Zfs : Type 0 where
  pub dataset : Bytes
  pub prefix : Bytes
  pub list_command : List Bytes
  pub send_command : List Bytes
  pub receive_command : List Bytes
  pub destroy_command : List Bytes

unfoldable pub zfs_of : Packages → Options → Bool → Bool → Zfs
unfolding send_words
zfs_of P o replicate raw = record {
  dataset = get (codes "Dataset") o;
  prefix = get_string o (codes "Prefix") (codes "uback-");
  list_command = get_command P o (codes "ListCommand") (codes "zfs" ∷ codes "list" ∷ []);
  send_command =
      get_command P o (codes "SendCommand") (codes "zfs" ∷ codes "send" ∷ [])
      ++ send_words o replicate raw;
  receive_command = get_command P o (codes "ReceiveCommand") (codes "zfs" ∷ codes "receive" ∷ []);
  destroy_command =
      get_command P o (codes "DestroyCommand") (codes "zfs" ∷ codes "detroy" ∷ [])
      ++ when replicate (codes "-r" ∷ []);
}

unfoldable pub new_zfs_destination : Packages → Options → Result Zfs
unfolding zfs_of
new_zfs_destination P o =
    if is_empty (get (codes "Dataset") o)
    then err Error.missing_option
    else (get_boolean P o (codes "Replicate") true >>= λ replicate.
        get_boolean P o (codes "Raw") true >>= λ raw. ok (zfs_of P o replicate raw))
