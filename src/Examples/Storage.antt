-- ===== src/Examples/Storage.antt =====
-- A failed send to a directory in memory, and a container written and read with no encryption.
use uback.Base.{
  ◌≡◌, ◌≢◌, refl, sym, ap, ◌∙◌, Bool, true, false, not, Option, none, some, List, [], ◌∷◌, ◌++◌,
  Bytes, codes, equal, equal_iff, Result, ok, err, Error, if◌then◌else◌, Bool-cases, inl, inr,
  ◌>>=◌, arith, ℕ, ◌-◌, ◌==◌,
}
use mathlib.Core.Bool.{false≢true}
use uback.Interfaces.{Stream}
use uback.Destinations.Fs.{Files, temporary_path, send_backup}
use uback.Destinations.Fs.Atomic.{TouchesOne, send_backup-content}
use uback.Options.{Options, Packages}
use uback.Container.{Codec, new_reader, unseal, write_container}
use uback.Container.RoundTrip.{Reverses, header_options, unseal-write_container}
use uback.Examples.Data.{next_two}

abbrev Directory : Type 0
Directory = Bytes → Option Bytes

abbrev set : Bytes → Option Bytes → Directory → Directory
set p v s q = if equal q p then v else s q

abbrev copied : Option Error → Result (Unit {0})
copied none = ok tt
copied (some e) = err e

abbrev renamed : Bytes → Bytes → Option Bytes → Directory → Directory × Result (Unit {0})
renamed p r none s = (s, err (Error.external 2))
renamed p r (some v) s = (set r (some v) (set p none s), ok tt)

abbrev directory : Files
directory = record {
  State = Directory;
  join = λ a b. a ++ (b'/' ∷ b);
  make_directories = λ p s. (s, ok tt);
  read_directory = λ p s. ok [];
  create = λ p s. (set p (some []) s, ok tt);
  copy = λ p stream s. (set p (some stream.content) s, copied stream.failure);
  rename = λ p r s. renamed p r (s p) s;
  remove = λ p s. (set p none s, ok tt);
  open_file = λ p s. err (Error.external 2);
}

set-other : (p q : Bytes) (v : Option Bytes) (s : Directory) → q ≢ p → set p v s q ≡ s q
set-other p q v s other = elim (Bool-cases (equal q p)) [
  | inl e ↦ absurd (other ((equal_iff q p).0 e))
  | inr e ↦ rw e refl
]

renamed-failed :
    (p r q : Bytes) (v : Option Bytes) (s : Directory) (e : Error)
    → (renamed p r v s).1 ≡ err e
    → (renamed p r v s).0 q ≡ s q
renamed-failed p r q none s e h = refl
renamed-failed p r q (some v) s e h = ground arith

directory-TouchesOne : TouchesOne directory
directory-TouchesOne = record {
  content = λ s q. s q;
  content-create = λ p q s other. set-other p q (some []) s other;
  content-copy = λ p q stream s other. set-other p q (some stream.content) s other;
  content-remove = λ p q s other. set-other p q none s other;
  content-rename_failed = λ p r q s e h. renamed-failed p r q (s p) s e h;
}

abbrev held : Directory
held q = some (codes "old")

abbrev torn : Stream
torn = record { content = codes "new"; failure = some (Error.external 1) }

other_path :
    codes "d/20210102T000000.000-from-20210101T000000.000.ubkp"
    ≢ temporary_path directory (codes "d") next_two
unfolding equal
other_path e = false≢true ((equal_iff _ _).1 e)

send_backup-content_example :
    directory-TouchesOne.content
      (send_backup directory (codes "d") next_two torn held).0
      (codes "d/20210102T000000.000-from-20210101T000000.000.ubkp")
    ≡ directory-TouchesOne.content held
        (codes "d/20210102T000000.000-from-20210101T000000.000.ubkp")
unfolding send_backup
send_backup-content_example =
    send_backup-content directory directory-TouchesOne (codes "d") next_two torn
      (codes "d/20210102T000000.000-from-20210101T000000.000.ubkp") other_path held
      (Error.external 1) refl

abbrev capital : Bytes → Bytes
capital [] = []
capital (c ∷ k) = (c - 32) ∷ k

abbrev pub packages : Packages
packages = record {
  pascalize = capital;
  render = λ k v o. none;
  split_shell = λ s. none;
  to_lower = λ s. s;
}

abbrev hash : Bytes
hash = codes "0123456789abcdef0123456789abcdef"

abbrev pub plain_codec : Codec Bytes Bytes
plain_codec = record {
  compress = λ s. s;
  decompress = λ s. ok s;
  encrypt = λ r s. ok s;
  decrypt = λ i s. ok s;
  sha256 = λ s. hash;
}

pub plain_codec-Reverses : (r i : List Bytes) → Reverses plain_codec r i
plain_codec-Reverses r i = record {
  decompress-compress = λ s. refl;
  decrypt-encrypt = λ s sealed e. sym (ground arith);
  length-sha256 = λ s. refl;
}

-- The options of the header of a sealed container.
abbrev pub sealed_options : Options
sealed_options = record {
  strings = (codes "Type", codes "tar") ∷ (codes "Compression", codes "zstd") ∷ [];
  slices = [];
}

abbrev pub sealed : Bytes
sealed =
    codes
      "github.com/sloonz/uback/v0\ntype=tar,compression=zstd\n0123456789abcdef0123456789abcdefdata"

unseal-write_container_example :
    (new_reader plain_codec packages 0 sealed >>= unseal plain_codec packages (codes "key" ∷ []))
    ≡ ok (codes "data")
unfolding write_container uback.Container.RoundTrip.one_line uback.Options.eval_options
    uback.Options.split_options uback.Options.Split.split_texts uback.Base.split_once
    uback.Base.trim_space uback.Container.options_line equal uback.Base.insert uback.Options.get
    uback.Base.lookup uback.Container.header
unseal-write_container_example =
    unseal-write_container plain_codec packages 0 (codes "age" ∷ []) (codes "key" ∷ [])
      (plain_codec-Reverses _ _) (codes "tar") (codes "data") sealed_options refl refl refl refl
      sealed refl
