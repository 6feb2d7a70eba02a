-- ===== src/Sources/Btrfs/Ending.antt =====
-- What becomes of an error of the command that sends.
use uback.Base.{◌≡◌, refl, Bool-cases, inl, inr, none, some, List, Bytes, if◌then◌else◌, ok}
use uback.Snapshot.{Backup}
use uback.System.{System, Failure, finished, wrap_source_command}
use uback.Sources.{Chosen}
use uback.Sources.Btrfs.{Btrfs, snapshot_path, temporary_path, finalize}

module _ (O : System) (t : Btrfs) where
  -- If the command that sends a snapshot fails, and the snapshot can be renamed, then the data ends with the
  -- command's error if the snapshot was made for this backup, and as if it were whole if it was
  -- there before.
  pub finalize-failure :
      (b : Backup) (words : List Bytes) (c : Chosen) (f : Failure) (output : Bytes)
      (s s' s'' : O.State)
      → O.execute words none none s ≡ (s', finished output (some f))
      → O.rename (temporary_path O t c.snapshot) (snapshot_path O t c.snapshot) s' ≡ (s'', ok tt)
      → (wrap_source_command O b words (finalize O t c) s).1
        ≡ ok (b, record { content = output; failure = if c.reused then none else some f.error })
  unfolding wrap_source_command finalize
  finalize-failure b words c f output s s' s'' h r = elim (Bool-cases c.reused) [
    | inl e ↦ rw (h, e, r) refl
    | inr e ↦ rw (h, e) refl
  ]
