-- ===== src/Destinations/ObjectStorage.antt =====
-- destinations/object-storage.go over the calls of the minio client that it makes.
use uback.Base.{
  ℕ, ◌==◌, ◌*◌, ◌%◌, Bool, true, false, not, ◌||◌, Option, none, some, List, [], ◌∷◌, Bytes, codes,
  ◌++◌, is_empty, if◌then◌else◌, Result, ok, err, equal, has_prefix, ◌>>=◌, word_mod,
}
use uback.Base.Commands.{Command}
use uback.Snapshot.{Backup, filename}
use uback.Snapshot.Filename.{parse_backup_filename, path_base}
use uback.Interfaces.{Stream, Destination}
use uback.Options.{Options, get}
use uback.Destinations.{with_parsed}
use uback.Destinations.Ftp.{trim_slashes}

-- The parts that are read of a parsed `url.URL`.
pub record Url : Type 0 where
  pub scheme : Bytes
  pub host : Bytes
  pub username : Bytes
  pub password : Bytes
  pub path : Bytes

-- What the client and the destination are made from.
pub record Config : Type 0 where
  pub endpoint : Bytes
  pub secure : Bool
  pub access_key : Bytes
  pub secret_key : Bytes
  pub bucket : Bytes
  pub prefix : Bytes
  pub part_size : ℕ

-- An option replaces what the URL says.
unfoldable pub option_or : Bytes → Bytes → Bytes
option_or v default = if is_empty v then default else v

-- A text that `strconv.ParseBool` refuses is logged, and taken as secure.
unfoldable pub secure_of : (Bytes → Option Bool) → Bytes → Bytes → Bool
secure_of parse_bool scheme v =
    if is_empty v
    then not (equal scheme (codes "http"))
    else (elim (parse_bool v) [ none ↦ true | some b ↦ b ])

-- The megabytes are counted in 64 bits.
unfoldable pub part_size_of : (Bytes → Option ℕ) → Bytes → ℕ
part_size_of parse_uint v =
    if is_empty v
    then 0
    else (elim (parse_uint v) [ none ↦ 0 | some n ↦ n * 1024 * 1024 % word_mod ])

unfoldable pub prefix_of : Bytes → Bytes
prefix_of v =
    let prefix = trim_slashes v ++ b'/' ∷ [] in if equal prefix (codes "/") then [] else prefix

unfoldable pub object_storage_config :
    (Bytes → Option Bool) → (Bytes → Option ℕ) → Url → Options → Config
unfolding option_or secure_of part_size_of prefix_of
object_storage_config parse_bool parse_uint u o = record {
  endpoint = option_or (get (codes "Endpoint") o) u.host;
  secure = secure_of parse_bool u.scheme (get (codes "Secure") o);
  access_key = option_or (get (codes "AccessKeyID") o) u.username;
  secret_key = option_or (get (codes "SecretAccessKey") o) u.password;
  bucket = trim_slashes (option_or (get (codes "Bucket") o) u.path);
  prefix = prefix_of (get (codes "Prefix") o);
  part_size = part_size_of parse_uint (get (codes "PartSize") o);
}

-- The client with its bucket and part size; a listing is what comes out of the channel.
pub record Client : Type 1 where
  pub State : Type 0
  pub list_objects : Bytes → State → List (Result Bytes)
  pub put_object : Bytes → Stream → Command State (Unit {0})
  pub remove_object : Bytes → Command State (Unit {0})
  pub get_object : Bytes → State → Result Stream

abbrev pub ends_in_slash : Bytes → Bool
ends_in_slash [] = false
ends_in_slash (c ∷ []) = c == b'/'
ends_in_slash (c ∷ d ∷ s) = ends_in_slash (d ∷ s)

-- The whole key is tested, the last element of it parsed. The first error ends the loop.
unfoldable pub listed_objects : List (Result Bytes) → Result (List Backup)
listed_objects [] = ok []
listed_objects (obj ∷ objs) = obj >>= λ key. listed_objects objs >>= λ rest. ok (
    if has_prefix key (codes ".") || has_prefix key (codes "_") || ends_in_slash key
    then rest
    else with_parsed (parse_backup_filename (path_base key) true) rest)

module _ (C : Client) (prefix : Bytes) where
  abbrev pub key_of : Backup → Bytes
  key_of b = prefix ++ filename b

  -- An object that is not written whole is removed.
  unfoldable pub remove_unwritten :
      Bytes → C.State × Result (Unit {0}) → C.State × Result (Unit {0})
  remove_unwritten key (s, err e) = ((C.remove_object key s).0, err e)
  remove_unwritten key (s, ok done) = (s, ok done)

  unfoldable pub send_backup : Backup → Stream → C.State → C.State × Result (Unit {0})
  unfolding remove_unwritten
  send_backup b stream s = remove_unwritten (key_of b) (C.put_object (key_of b) stream s)

  unfoldable pub object_storage_destination : Destination
  unfolding listed_objects
  object_storage_destination = record {
    State = C.State;
    list_backups = λ s. listed_objects (C.list_objects prefix s);
    remove_backup = λ b. C.remove_object (key_of b);
    send_backup = send_backup;
    receive_backup = λ b s. C.get_object (key_of b) s;
  }
