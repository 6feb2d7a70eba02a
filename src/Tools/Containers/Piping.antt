-- ===== src/Tools/Containers/Piping.antt =====
-- `uback container create` with `uback container extract` behind it.
use uback.Base.{
  ℕ, ◌≡◌, refl, true, none, List, [], ◌∷◌, Bytes, equal, leb, length, codes, ok, bind-eq-ok, arith,
}
use uback.Base.Commands.{◌>>=◌, ◌>>◌, pure, ask, go_on}
use uback.Interfaces.{Stream}
use uback.Options.{Options, Packages, get}
use uback.Options.Keys.{KeyFiles, load_identities, load_recipients}
use uback.Container.{Codec, Reader, new_reader, no_keys, unseal, write_container}
use uback.Container.RoundTrip.{Reverses, one_line, header_options, unseal-write_container}
use uback.Tools.{Terminal}
use uback.Tools.Containers.{input_of, opened_output, cmd_create, cmd_extract}

-- The bytes, and then the end of the stream.
abbrev pub whole : Bytes → Stream
whole content = record { content = content; failure = none }

opened_output-short :
    (T : Terminal) (arguments : List Bytes) (w : T.State)
    → leb (length arguments) 1 ≡ true
    → opened_output T arguments w ≡ (w, ok true)
unfolding pure
opened_output-short T [] w short = refl
opened_output-short T (input ∷ []) w short = refl
opened_output-short T (input ∷ output ∷ files) w short = ground arith

module _ {Identity Recipient : Type 0} (T : Terminal) (Z : Codec Identity Recipient) (P : Packages)
    (fuel : ℕ) where
  module _ (K : KeyFiles Identity Recipient) (file key : Bytes) (arguments : List Bytes)
      (w : T.State) (short : leb (length arguments) 1 ≡ true) (content s : Bytes) where
    cmd_create-prints :
        (typ : Bytes) (recipients : List Recipient)
        → input_of T arguments w ≡ ok (whole content)
        → load_recipients K file key ≡ ok recipients
        → write_container Z P recipients typ content ≡ ok s
        → cmd_create T Z P fuel K file key typ arguments w ≡ T.print s w
    unfolding cmd_create ◌>>=◌ ◌>>◌ go_on ask pure
    cmd_create-prints typ recipients read keys written =
        rw (read, opened_output-short T arguments w short, keys, written) refl

    cmd_extract-prints :
        (identities : List Identity) (r : Reader Z P)
        → input_of T arguments w ≡ ok (whole s)
        → load_identities K file key ≡ ok identities
        → new_reader Z P fuel s ≡ ok r
        → unseal Z P identities r ≡ ok content
        → cmd_extract T Z P fuel K file key arguments w ≡ T.print content w
    unfolding cmd_extract ◌>>=◌ ◌>>◌ go_on ask pure
    cmd_extract-prints identities r read keys opened unsealed =
        rw (read, opened_output-short T arguments w short, opened, keys, unsealed) refl

  module _ (recipients : List Recipient) (identities : List Identity)
      (R : Reverses Z recipients identities) (o : Options) where
    -- What `container create` prints of a content without an output file, `container extract` without one reads
    -- and prints that content, if the keys of the two are loaded and open each other's containers, the type is one
    -- line and the reader finds `plain` among the options exactly where it was written.
    pub cmd_extract-cmd_create :
        (K K' : KeyFiles Identity Recipient) (file key file' key' typ content s : Bytes)
        (arguments arguments' : List Bytes) (w w' : T.State)
        → leb (length arguments) 1 ≡ true
        → leb (length arguments') 1 ≡ true
        → load_recipients K file key ≡ ok recipients
        → load_identities K' file' key' ≡ ok identities
        → one_line typ ≡ true
        → no_keys identities ≡ no_keys recipients
        → header_options Z P fuel typ (no_keys recipients) ≡ ok o
        → equal (get (codes "Plain") o) (codes "1") ≡ no_keys recipients
        → write_container Z P recipients typ content ≡ ok s
        → input_of T arguments w ≡ ok (whole content)
        → input_of T arguments' w' ≡ ok (whole s)
        → (cmd_create T Z P fuel K file key typ arguments w ≡ T.print s w)
          × (cmd_extract T Z P fuel K' file' key' arguments' w' ≡ T.print content w')
    cmd_extract-cmd_create K K' file key file' key' typ content s arguments arguments' w w' short
          short' rs is line keys found plain written read read' =
        let (r, opened, unsealed) = bind-eq-ok (new_reader Z P fuel s) (unseal Z P identities) (
          unseal-write_container Z P fuel recipients identities R typ content o line keys found
            plain s written) in
        (
          cmd_create-prints K file key arguments w short content s typ recipients read rs written,
          cmd_extract-prints K' file' key' arguments' w' short' content s identities r read' is
              opened unsealed,
        )
