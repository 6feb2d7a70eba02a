-- ===== src/Container/RoundTrip.antt =====
-- What is read back from a container.
use uback.Base.{
  ℕ, ◌≡◌, refl, sym, ap, ◌∙◌, subst, Bool, true, false, not, some, List, [], ◌∷◌, ◌++◌, Bytes,
  codes, equal, equal_refl, length, take, drop, arith, leb, cut_prefix-append, trim_space, Result,
  ok, err, Error, ◌>>=◌, ◌==◌, if◌then◌else◌, bind-eq-ok, ◌&&◌,
}
use mathlib.Core.List.{append_assoc}
use uback.Options.{Options, Packages, get, split_options, eval_options}
use uback.Container.{
  Codec, Reader, magic, options_line, header, no_keys, read_line, write_container, read_options,
  new_reader, behind_magic, check_hash, unseal,
}

-- The text has no newline.
unfoldable pub one_line : Bytes → Bool
one_line [] = true
one_line (c ∷ s) = not (c == b'\n') && one_line s

one_line-append : (a b : Bytes) → one_line a ≡ true → one_line b ≡ true → one_line (a ++ b) ≡ true
unfolding one_line
one_line-append [] b h k = k
one_line-append (c ∷ a) b h k = ground (arith, one_line-append a b)

read_line-line :
    (line rest : Bytes)
    → one_line line ≡ true
    → read_line (line ++ b'\n' ∷ rest) ≡ some (line, rest)
unfolding read_line one_line
read_line-line [] rest h = ground arith
read_line-line (c ∷ line) rest h = ground (arith, read_line-line line rest)

options_line-one_line :
    (typ : Bytes) (plain : Bool) → one_line typ ≡ true → one_line (options_line typ plain) ≡ true
unfolding options_line one_line
options_line-one_line typ true h = one_line-append typ (codes ",compression=zstd,plain=1") h refl
options_line-one_line typ false h = one_line-append typ (codes ",compression=zstd") h refl

header-append :
    (typ : Bytes) (plain : Bool) (body : Bytes)
    → header typ plain ++ body ≡ magic ++ (options_line typ plain ++ b'\n' ∷ body)
unfolding header
header-append typ plain body =
    append_assoc magic (options_line typ plain ++ b'\n' ∷ []) body
    ∙ ap (λ s. magic ++ s) (append_assoc (options_line typ plain) (b'\n' ∷ []) body)

take-append : (a b : Bytes) → take (length a) (a ++ b) ≡ a
take-append [] b = refl
take-append (c ∷ a) b = ap (λ l. c ∷ l) (take-append a b)

drop-append : (a b : Bytes) → drop (length a) (a ++ b) ≡ b
drop-append [] b = refl
drop-append (c ∷ a) b = drop-append a b

length-append_le : (a b : Bytes) → leb (length a) (length (a ++ b)) ≡ true
length-append_le [] b = ground arith
length-append_le (c ∷ a) b = ground (arith, length-append_le a b)

-- What zstd, age and sha256 promise: each reader gives what was written, for the keys at hand, and a hash
-- is 32 bytes long.
pub record Reverses {Identity Recipient : Type 0} (Z : Codec Identity Recipient)
    (recipients : List Recipient) (identities : List Identity) : Type 0 where
  pub decompress-compress : (s : Bytes) → Z.decompress (Z.compress s) ≡ ok s
  pub decrypt-encrypt :
      (s sealed : Bytes) → Z.encrypt recipients s ≡ ok sealed → Z.decrypt identities sealed ≡ ok s
  pub length-sha256 : (s : Bytes) → length (Z.sha256 s) ≡ 32

module _ {Identity Recipient : Type 0} (Z : Codec Identity Recipient) (P : Packages)
    (fuel : ℕ) where
  new_reader-header :
      (typ : Bytes) (plain : Bool) (body : Bytes)
      → one_line typ ≡ true
      → new_reader Z P fuel (header typ plain ++ body)
        ≡ read_options Z P fuel (some (options_line typ plain, body))
  unfolding new_reader behind_magic
  new_reader-header typ plain body h =
      let line = options_line typ plain in
      ap (new_reader Z P fuel) (header-append typ plain body)
      ∙ ap (behind_magic Z P fuel (magic ++ (line ++ b'\n' ∷ body)))
          (cut_prefix-append magic (line ++ b'\n' ∷ body))
      ∙ ap (read_options Z P fuel) (read_line-line line body (options_line-one_line typ plain h))

  -- The body behind a header, with the hash of that header.
  abbrev pub reader_of : Bytes → Bool → Bytes → Options → Reader Z P
  reader_of typ plain body o = record {
    body = body;
    header_hash = Z.sha256 (header typ plain);
    options = o;
  }

  -- The options that the reader finds on the second line of the header.
  abbrev pub header_options : Bytes → Bool → Result Options
  header_options typ plain =
      eval_options P fuel (split_options P (trim_space (options_line typ plain ++ b'\n' ∷ []))) []

  pub new_reader-reader_of :
      (typ : Bytes) (plain : Bool) (body : Bytes) (o : Options)
      → one_line typ ≡ true
      → header_options typ plain ≡ ok o
      → new_reader Z P fuel (header typ plain ++ body) ≡ ok (reader_of typ plain body o)
  unfolding read_options header
  new_reader-reader_of typ plain body o h e = new_reader-header typ plain body h ∙ rw e

  check_hash-append :
      (hash content : Bytes)
      → length hash ≡ 32
      → check_hash Z P hash (hash ++ content) ≡ Z.decompress content
  unfolding check_hash
  check_hash-append hash content h =
      subst
        (λ n.
          (if not (leb n (length (hash ++ content)))
            then err Error.unexpected_eof
            else if equal (take n (hash ++ content)) hash
            then Z.decompress (drop n (hash ++ content))
            else err Error.invalid_header_hash)
          ≡ Z.decompress content)
        h (rw (length-append_le, take-append, equal_refl, drop-append) refl)

  module _ (identities : List Identity) (r : Reader Z P) where
    unseal-plain :
        no_keys identities ≡ true
        → equal (get (codes "Plain") r.options) (codes "1") ≡ true
        → unseal Z P identities r ≡ Z.decompress r.body
    unfolding unseal
    unseal-plain keys plain = rw keys (rw plain refl)

    unseal-sealed :
        no_keys identities ≡ false
        → equal (get (codes "Plain") r.options) (codes "1") ≡ false
        → unseal Z P identities r ≡ (Z.decrypt identities r.body >>= check_hash Z P r.header_hash)
    unfolding unseal
    unseal-sealed keys plain = rw keys (rw plain refl)

  module _ (recipients : List Recipient) (identities : List Identity)
      (R : Reverses Z recipients identities) (typ content : Bytes) (o : Options) where
    pub write_container-plain :
        no_keys recipients ≡ true
        → write_container Z P recipients typ content ≡ ok (header typ true ++ Z.compress content)
    unfolding write_container
    write_container-plain keys = rw keys refl

    pub write_container-sealed :
        no_keys recipients ≡ false
        → write_container Z P recipients typ content ≡ (
            Z.encrypt recipients (Z.sha256 (header typ false) ++ Z.compress content) >>= λ sealed.
            ok (header typ false ++ sealed))
    unfolding write_container
    write_container-sealed keys = rw keys refl

    -- The two ways, by whether there are keys.
    read_back :
        (plain : Bool)
        → one_line typ ≡ true
        → no_keys identities ≡ plain
        → no_keys recipients ≡ plain
        → header_options typ plain ≡ ok o
        → equal (get (codes "Plain") o) (codes "1") ≡ plain
        → (s : Bytes) → write_container Z P recipients typ content ≡ ok s
        → (new_reader Z P fuel s >>= unseal Z P identities) ≡ ok content
    read_back true line keys keys' found plain s h =
        let q : Result.ok (header typ true ++ Z.compress content) ≡ ok s =
          sym (write_container-plain keys') ∙ h in
        let q' : header typ true ++ Z.compress content ≡ s = ground arith in
        ap (λ s. new_reader Z P fuel s >>= unseal Z P identities) (sym q')
        ∙ ap (λ r. r >>= unseal Z P identities)
            (new_reader-reader_of typ true (Z.compress content) o line found)
        ∙ unseal-plain identities (reader_of typ true (Z.compress content) o) keys plain
        ∙ R.decompress-compress content
    read_back false line keys keys' found plain s h =
        let (sealed, e, q) =
          bind-eq-ok (Z.encrypt recipients (Z.sha256 (header typ false) ++ Z.compress content))
            (λ sealed. ok (header typ false ++ sealed)) (sym (write_container-sealed keys') ∙ h) in
        let q' : header typ false ++ sealed ≡ s = ground arith in
        ap (λ s. new_reader Z P fuel s >>= unseal Z P identities) (sym q')
        ∙ ap (λ r. r >>= unseal Z P identities) (new_reader-reader_of typ false sealed o line found)
        ∙ unseal-sealed identities (reader_of typ false sealed o) keys plain
        ∙ ap (λ r. r >>= check_hash Z P (Z.sha256 (header typ false)))
            (R.decrypt-encrypt _ sealed e)
        ∙ check_hash-append (Z.sha256 (header typ false)) (Z.compress content) (R.length-sha256 _)
        ∙ R.decompress-compress content

    -- A content written for some recipients, or for none, is read back with keys that open it, or with no keys,
    -- if the type is one line and the reader finds `plain` among the options exactly where it was written.
    pub unseal-write_container :
        one_line typ ≡ true
        → no_keys identities ≡ no_keys recipients
        → header_options typ (no_keys recipients) ≡ ok o
        → equal (get (codes "Plain") o) (codes "1") ≡ no_keys recipients
        → (s : Bytes) → write_container Z P recipients typ content ≡ ok s
        → (new_reader Z P fuel s >>= unseal Z P identities) ≡ ok content
    unseal-write_container line keys found plain =
        read_back (no_keys recipients) line keys refl found plain
