-- ===== src/Destinations/Receiving.antt =====
-- destinations/btrfs.go and zfs.go: the container in front of a command that receives. It has to be plain.
use uback.Base.{ℕ, Option, none, some, codes, equal, if◌then◌else◌, Result, ok, err, Error, ◌>>=◌}
use uback.Options.{Packages, get}
use uback.Container.{Codec, new_reader}
use uback.Interfaces.{Stream}

-- A reader that fails inside the header gives its own error.
abbrev pub read_failure : Option Error → Error → Error
read_failure none e = e
read_failure (some f) Error.unexpected_eof = f
read_failure (some f) e = e

abbrev pub or_failure {ℓ} : {A : Type ℓ} → Option Error → Result A → Result A
or_failure failure (ok a) = ok a
or_failure failure (err e) = err (read_failure failure e)

-- `inflate` is what the reader of zstd delivers of what its own reader does.
module _ {Identity Recipient : Type 0} (Z : Codec Identity Recipient) (P : Packages)
    (inflate : Stream → Stream) where
  -- `NewReader` and `Unseal(nil)`
  unfoldable pub opened : ℕ → Stream → Result Stream
  opened fuel stream = or_failure stream.failure (new_reader Z P fuel stream.content) >>= λ r.
      if equal (get (codes "Plain") r.options) (codes "1")
      then ok (inflate (record { content = r.body; failure = stream.failure }))
      else err Error.expected_plaintext
