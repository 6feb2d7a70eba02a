-- ===== src/Options/Reads.antt =====
-- `ReadPresets` of lib/options.go, and the builder of cmd/options.go.
use uback.Base.{
  ℕ, ◌==◌, Bool, not, ◌&&◌, ◌||◌, Option, none, some, List, [], ◌∷◌, Bytes, codes, Dict, lookup,
  insert, is_empty, if◌then◌else◌, Result, ok, err, Error, ◌>>=◌,
}
use uback.Retention.{RetentionPolicy}
use uback.Options.{Options, KeyValuePair, get, get_retention_policies}
use uback.Options.Keys.{KeyFiles, load_recipients, load_identities}

-- A directory entry of the presets: it cannot be opened, or its options are decoded, as far as they are.
pub data PresetFile : Type 0 where
  unopenable : PresetFile
  decoded : List KeyValuePair → PresetFile

-- `strings.TrimRight(name, ".json")` takes off every last byte that is one of these.
unfoldable pub is_json_byte : ℕ → Bool
is_json_byte c = c == b'.' || c == b'j' || c == b's' || c == b'o' || c == b'n'

unfoldable pub trim_json_bytes : Bytes → Bytes
unfolding is_json_byte
trim_json_bytes [] = []
trim_json_bytes (c ∷ s) =
    let rest = trim_json_bytes s in if is_empty rest && is_json_byte c then [] else c ∷ rest

unfoldable pub add_presets :
    Dict (List KeyValuePair) → List (Bytes × PresetFile) → Dict (List KeyValuePair)
unfolding trim_json_bytes
add_presets presets [] = presets
add_presets presets ((name, unopenable) ∷ entries) = add_presets presets entries
add_presets presets ((name, decoded options) ∷ entries) =
    add_presets (insert (trim_json_bytes name) options presets) entries

-- `none` is a directory that does not exist.
unfoldable pub read_presets :
    Result (Option (List (Bytes × PresetFile))) → Result (Dict (List KeyValuePair))
unfolding add_presets
read_presets (err e) = err e
read_presets (ok none) = ok []
read_presets (ok (some entries)) = ok (add_presets [] entries)

-- The constructors of sources and destinations, `age`'s keys and `os.MkdirAll` are parameters.
pub record Makers (Source Destination Identity Recipient : Type 0) : Type 0 where
  pub new_source : Options → Result (Source × Bytes)
  pub new_destination : Options → Result Destination
  pub keys : KeyFiles Identity Recipient
  pub make_directories : Bytes → Result (Unit {0})

-- The fields that are nil before their step are `none`; the error is the first one.
pub record Builder (Source Destination Identity Recipient : Type 0) : Type 0 where
  pub options : Options
  pub source : Option (Source × Bytes)
  pub destination : Option Destination
  pub policies : List RetentionPolicy
  pub identities : List Identity
  pub recipients : List Recipient

module _ {Source Destination Identity Recipient : Type 0}
    (M : Makers Source Destination Identity Recipient) where
  -- A step does nothing behind an error.
  abbrev pub Step : Type 0
  Step =
      Builder Source Destination Identity Recipient
      → Result (Builder Source Destination Identity Recipient)

  unfoldable pub new_options_builder :
      Result Options → Result (Builder Source Destination Identity Recipient)
  new_options_builder r = r >>= λ options. ok (record {
    options = options;
    source = none;
    destination = none;
    policies = [];
    identities = [];
    recipients = [];
  })

  unfoldable pub with_source : Step
  with_source b = M.new_source b.options >>= λ s. ok (record b { source = some s })

  unfoldable pub with_destination : Step
  with_destination b = M.new_destination b.options >>= λ d. ok (record b { destination = some d })

  unfoldable pub with_recipients : Step
  with_recipients b =
      if not (is_empty (get (codes "NoEncryption") b.options))
      then ok (record b { recipients = [] })
      else (load_recipients M.keys (get (codes "KeyFile") b.options) (get (codes "Key") b.options)
          >>= λ r. ok (record b { recipients = r }))

  unfoldable pub with_identities : Step
  with_identities b =
      if not (is_empty (get (codes "NoEncryption") b.options))
      then ok (record b { identities = [] })
      else (load_identities M.keys (get (codes "KeyFile") b.options) (get (codes "Key") b.options)
          >>= λ i. ok (record b { identities = i }))

  unfoldable pub with_string_option : Bytes → Step
  with_string_option k b = if is_empty (get k b.options) then err Error.missing_option else ok b

  -- The directory is made only for an option that is given; it is its path up to the last slash.
  unfoldable pub with_state_file : (Bytes → Bytes) → Step
  with_state_file path_dir b = elim (lookup (codes "StateFile") b.options.strings) [
    | none ↦ ok b
    | some file ↦ M.make_directories (path_dir file) >>= λ done. ok b
  ]

  unfoldable pub with_retention_policies : Step
  with_retention_policies b =
      get_retention_policies b.options >>= λ ps. ok (record b { policies = ps })
