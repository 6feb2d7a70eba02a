-- ===== src/Options/Keys.antt =====
-- `LoadIdentities` and `LoadRecipients` of lib/utils.go. Reading a file and `age`'s parsers are parameters.
use uback.Base.{not, ◌&&◌, List, Bytes, is_empty, if◌then◌else◌, Result, ok, err, Error, ◌>>=◌}

pub record KeyFiles (Identity Recipient : Type 0) : Type 0 where
  pub read_file : Bytes → Result Bytes
  pub parse_identities : Bytes → Result (List Identity)
  pub parse_recipients : Bytes → Result (List Recipient)

module _ {Identity Recipient : Type 0} (K : KeyFiles Identity Recipient) where
  -- The text of the key, from the file if one is named.
  unfoldable pub key_text : Bytes → Bytes → Result Bytes
  key_text file key =
      if not (is_empty file) && not (is_empty key)
      then err Error.both_keys
      else if not (is_empty file)
      then K.read_file file
      else ok key

  unfoldable pub load_identities : Bytes → Bytes → Result (List Identity)
  unfolding key_text
  load_identities file key = key_text file key >>= K.parse_identities

  unfoldable pub load_recipients : Bytes → Bytes → Result (List Recipient)
  unfolding key_text
  load_recipients file key = key_text file key >>= K.parse_recipients
