-- ===== src/Destinations/Btrfs/Sending.antt =====
-- What `btrfs receive` is given, from the container that was written.
use uback.Base.{
  ℕ, ◌≡◌, refl, sym, ap, ◌∙◌, Bool, true, false, none, some, List, [], ◌∷◌, ◌++◌, Bytes, codes,
  equal, arith, Result, ok, err, Error, bind-eq-ok, if◌then◌else◌,
}
use uback.Base.Commands.{Command, ◌>>◌, go_on}
use uback.Base.Commands as Commands
use uback.Snapshot.{Backup}
use uback.Interfaces.{Stream}
use uback.Options.{Options, Packages, get}
use uback.Container.{Codec, header, no_keys, write_container}
use uback.Container.RoundTrip.{one_line, header_options, new_reader-reader_of}
use uback.System.{System, build_command, run_command}
use uback.Destinations.Receiving.{opened}
use uback.Destinations.Btrfs.{Btrfs, snapshot_path, temporary_path, send_backup}

abbrev whole : Bytes → Stream
whole s = record { content = s; failure = none }

module _ {Identity Recipient : Type 0} (Z : Codec Identity Recipient) (P : Packages)
    (inflate : Stream → Stream) (fuel : ℕ) (typ : Bytes) (o : Options) where
  opened-header :
      (plain : Bool) (body : Bytes)
      → one_line typ ≡ true
      → header_options Z P fuel typ plain ≡ ok o
      → equal (get (codes "Plain") o) (codes "1") ≡ plain
      → opened Z P inflate fuel (whole (header typ plain ++ body))
        ≡ (if plain then ok (inflate (whole body)) else err Error.expected_plaintext)
  unfolding opened
  opened-header plain body line found marked =
      rw (new_reader-reader_of Z P fuel typ plain body o line found, marked) refl

  ok-injective : {A : Type 0} {a b : A} → Result.ok a ≡ ok b → a ≡ b
  ok-injective h = ground arith

  -- A container for recipients is a header that does not say `plain`, and what age makes.
  write_container-header :
      (recipients : List Recipient) (content s : Bytes)
      → no_keys recipients ≡ false
      → write_container Z P recipients typ content ≡ ok s
      → (sealed : Bytes) × (header typ false ++ sealed ≡ s)
  unfolding write_container
  write_container-header recipients content s keys h =
      let (sealed, e, q) =
        bind-eq-ok (Z.encrypt recipients (Z.sha256 (header typ false) ++ Z.compress content))
          (λ sealed. ok (header typ false ++ sealed)) (rw keys at h) in
      (sealed, ok-injective q)

  module _ (O : System) (t : Btrfs) (b : Backup) (content : Bytes) (w : O.State) where
    -- A container that was written for no recipients: the command that receives gets the content, and then the
    -- snapshot takes its name, unless the command fails.
    pub send_backup-plain :
        one_line typ ≡ true
        → header_options Z P fuel typ true ≡ ok o
        → equal (get (codes "Plain") o) (codes "1") ≡ true
        → inflate (whole (Z.compress content)) ≡ whole content
        → (s : Bytes) → write_container Z P [] typ content ≡ ok s
        → send_backup O t Z P inflate fuel b (whole s) w
          ≡ (run_command O
                  (build_command t.receive_command (t.base_path ∷ []))
                  (some (whole content))
                >> O.rename (temporary_path O t b) (snapshot_path O t b))
              w
    unfolding send_backup write_container Commands.◌>>=◌ Commands.ask
    send_backup-plain line found marked reads s h =
        let q : header typ true ++ Z.compress content ≡ s = ok-injective h in
        let e : opened Z P inflate fuel (whole s) ≡ ok (whole content) =
          ap (λ s. opened Z P inflate fuel (whole s)) (sym q)
          ∙ opened-header true (Z.compress content) line found marked
          ∙ ap ok reads in
        ap
          (λ r.
            go_on
              (λ content.
                run_command O (build_command t.receive_command (t.base_path ∷ [])) (some content)
                >> O.rename (temporary_path O t b) (snapshot_path O t b))
              (w, r))
          e

    -- A container that was written for recipients is refused, and no command is run.
    pub send_backup-sealed :
        (recipients : List Recipient)
        → no_keys recipients ≡ false
        → one_line typ ≡ true
        → header_options Z P fuel typ false ≡ ok o
        → equal (get (codes "Plain") o) (codes "1") ≡ false
        → (s : Bytes) → write_container Z P recipients typ content ≡ ok s
        → send_backup O t Z P inflate fuel b (whole s) w ≡ (w, err Error.expected_plaintext)
    unfolding send_backup write_container Commands.◌>>=◌ Commands.ask
    send_backup-sealed recipients keys line found marked s h =
        let (sealed, q) = write_container-header recipients content s keys h in
        let e : opened Z P inflate fuel (whole s) ≡ err Error.expected_plaintext =
          ap (λ s. opened Z P inflate fuel (whole s)) (sym q)
          ∙ opened-header false sealed line found marked in
        ap
          (λ r.
            go_on
              (λ content.
                run_command O (build_command t.receive_command (t.base_path ∷ [])) (some content)
                >> O.rename (temporary_path O t b) (snapshot_path O t b))
              (w, r))
          e
