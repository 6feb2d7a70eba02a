-- ===== src/Destinations/Fs/Atomic.antt =====
-- What a failed `SendBackup` leaves.
use uback.Base.{◌≡◌, ◌≢◌, refl, ◌∙◌, Option, Bytes, Result, ok, err, Error}
use uback.Snapshot.{Backup}
use uback.Interfaces.{Stream}
use uback.Destinations.Fs.{
  Files, temporary_path, final_path, rename_copied, copy_created, send_backup,
}

-- Creating, copying and removing change one file only, and a renaming that fails changes none.
pub record TouchesOne (F : Files) : Type 0 where
  pub content : F.State → Bytes → Option Bytes
  pub content-create :
      (p q : Bytes) (s : F.State) → q ≢ p → content (F.create p s).0 q ≡ content s q
  pub content-copy :
      (p q : Bytes) (stream : Stream) (s : F.State)
      → q ≢ p
      → content (F.copy p stream s).0 q ≡ content s q
  pub content-remove :
      (p q : Bytes) (s : F.State) → q ≢ p → content (F.remove p s).0 q ≡ content s q
  pub content-rename_failed :
      (p r q : Bytes) (s : F.State) (e : Error)
      → (F.rename p r s).1 ≡ err e
      → content (F.rename p r s).0 q ≡ content s q

module _ (F : Files) (T : TouchesOne F) (base : Bytes) (b : Backup) (stream : Stream) (q : Bytes)
    (other : q ≢ temporary_path F base b) where
  rename_copied-content :
      (r : F.State × Result (Unit {0})) (e : Error)
      → (rename_copied F base b r).1 ≡ err e
      → T.content (rename_copied F base b r).0 q ≡ T.content r.0 q
  unfolding rename_copied
  rename_copied-content (s, err x) e h = refl
  rename_copied-content (s, ok done) e h =
      T.content-rename_failed (temporary_path F base b) (final_path F base b) q s e h

  copy_created-content :
      (r : F.State × Result (Unit {0})) (e : Error)
      → (copy_created F base b stream r).1 ≡ err e
      → T.content (copy_created F base b stream r).0 q ≡ T.content r.0 q
  unfolding copy_created
  copy_created-content (s, err x) e h = refl
  copy_created-content (s, ok done) e h =
      T.content-remove (temporary_path F base b) q
        (rename_copied F base b (F.copy (temporary_path F base b) stream s)).0 other
      ∙ rename_copied-content (F.copy (temporary_path F base b) stream s) e h
      ∙ T.content-copy (temporary_path F base b) q stream s other

  -- A send that fails leaves the content of every file but the temporary one as it was.
  pub send_backup-content :
      (s : F.State) (e : Error)
      → (send_backup F base b stream s).1 ≡ err e
      → T.content (send_backup F base b stream s).0 q ≡ T.content s q
  unfolding send_backup
  send_backup-content s e h =
      copy_created-content (F.create (temporary_path F base b) s) e h
      ∙ T.content-create (temporary_path F base b) q s other
