-- ===== src/Container.antt =====
-- container/container.go. The packages zstd, age and sha256 are parameters; a stream is the bytes that it delivers.
pub mod RoundTrip
use uback.Base.{
  ℕ, ◌==◌, Bool, true, false, not, ◌&&◌, ◌||◌, Option, none, some, List, [], ◌∷◌, ◌++◌, Bytes,
  codes, equal, leb, length, take, drop, is_empty, cut_prefix, trim_space, if◌then◌else◌, Result,
  ok, err, Error, ◌>>=◌, zero, suc,
}
use uback.Options.{Options, Packages, get, split_options, eval_options}

-- `decompress` and `decrypt` give what the readers deliver, or the error that they end with.
pub record Codec (Identity Recipient : Type 0) : Type 0 where
  pub compress : Bytes → Bytes
  pub decompress : Bytes → Result Bytes
  pub encrypt : List Recipient → Bytes → Result Bytes
  pub decrypt : List Identity → Bytes → Result Bytes
  pub sha256 : Bytes → Bytes

abbrev pub magic : Bytes
magic = codes "github.com/sloonz/uback/v0\n"

-- The second line of the header, without its newline.
unfoldable pub options_line : Bytes → Bool → Bytes
options_line typ plain =
    codes "type="
    ++ (typ ++ (if plain then codes ",compression=zstd,plain=1" else codes ",compression=zstd"))

unfoldable pub header : Bytes → Bool → Bytes
unfolding options_line
header typ plain = magic ++ (options_line typ plain ++ b'\n' ∷ [])

abbrev pub no_keys : {K : Type 0} → List K → Bool
no_keys [] = true
no_keys (k ∷ ks) = false

-- The text up to the first newline and what follows it.
abbrev pub onto_line : ℕ → Option (Bytes × Bytes) → Option (Bytes × Bytes)
onto_line c none = none
onto_line c (some (line, rest)) = some (c ∷ line, rest)

unfoldable pub read_line : Bytes → Option (Bytes × Bytes)
read_line [] = none
read_line (c ∷ s) =
    let longer = onto_line c (read_line s) in if c == b'\n' then some ([], s) else longer

module _ {Identity Recipient : Type 0} (Z : Codec Identity Recipient) (P : Packages) where
  -- `NewWriter`, the writes and `Close`: all that is written for a content.
  unfoldable pub write_container : List Recipient → Bytes → Bytes → Result Bytes
  write_container recipients typ content =
      let plain = no_keys recipients in
      if plain
      then ok (header typ plain ++ Z.compress content)
      else (Z.encrypt recipients (Z.sha256 (header typ plain) ++ Z.compress content) >>= λ sealed.
          ok (header typ plain ++ sealed))

  pub record Reader : Type 0 where
    pub body : Bytes
    pub header_hash : Bytes
    pub options : Options

  -- Behind the magic, the line of the options.
  unfoldable pub read_options : ℕ → Option (Bytes × Bytes) → Result Reader
  read_options fuel none = err Error.unexpected_eof
  read_options fuel (some (line, rest)) =
      eval_options P fuel (split_options P (trim_space (line ++ b'\n' ∷ []))) [] >>= λ options.
      ok (record {
        body = rest;
        header_hash = Z.sha256 (magic ++ (line ++ b'\n' ∷ []));
        options = options;
      })

  unfoldable pub behind_magic : ℕ → Bytes → Option Bytes → Result Reader
  unfolding read_options read_line
  behind_magic fuel s none =
      if leb (length magic) (length s)
      then err Error.invalid_magic_header
      else err Error.unexpected_eof
  behind_magic fuel s (some rest) = read_options fuel (read_line rest)

  unfoldable pub new_reader : ℕ → Bytes → Result Reader
  unfolding behind_magic
  new_reader fuel s = behind_magic fuel s (cut_prefix magic s)

  -- The hash of the header that was encrypted in front of the content.
  unfoldable pub check_hash : Bytes → Bytes → Result Bytes
  check_hash hash opened =
      if not (leb 32 (length opened))
      then err Error.unexpected_eof
      else if equal (take 32 opened) hash
      then Z.decompress (drop 32 opened)
      else err Error.invalid_header_hash

  -- `Unseal` and the reads behind it.
  unfoldable pub unseal : List Identity → Reader → Result Bytes
  unfolding check_hash
  unseal identities r =
      let plain = equal (get (codes "Plain") r.options) (codes "1") in
      if no_keys identities
      then (if plain then Z.decompress r.body else err Error.expected_plaintext)
      else if plain
      then err Error.expected_encrypted
      else (Z.decrypt identities r.body >>= check_hash r.header_hash)
