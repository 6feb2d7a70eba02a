-- ===== src/Destinations/Fs/Entries.antt =====
-- What `SendBackup` of the fs destination changes in its directory.
use uback.Base.{
  ◌≡◌, ◌↔◌, false, Result-cases, inl, inr, List, Bytes, equal, In, Result, ok, err, Error, arith,
}
use uback.Snapshot.{Backup, filename}
use uback.Interfaces.{Stream}
use uback.Destinations.{Entry}
use uback.Destinations.Fs.{Files, rename_copied, copy_created, send_backup}
use uback.Destinations.Fs.Naming.{temporary_name}

-- Creating, copying and removing a file leave the entries of other names, and so does a renaming. What is
-- created is a file; a file that is renamed is an entry of its new name, and stays if the renaming fails.
pub record ListsFiles (F : Files) (base : Bytes) : Type 0 where
  pub entries : F.State → List Entry
  pub read_directory-entries : (s : F.State) → F.read_directory base s ≡ ok (entries s)
  pub In-create :
      (name : Bytes) (s : F.State) (e : Entry)
      → equal e.0 name ≡ false
      → In e (entries (F.create (F.join base name) s).0) ↔ In e (entries s)
  pub created-In :
      (name : Bytes) (s : F.State)
      → (F.create (F.join base name) s).1 ≡ ok tt
      → In (name, false) (entries (F.create (F.join base name) s).0)
  pub In-copy :
      (path : Bytes) (stream : Stream) (s : F.State) (e : Entry)
      → In e (entries (F.copy path stream s).0) ↔ In e (entries s)
  pub In-remove :
      (name : Bytes) (s : F.State) (e : Entry)
      → equal e.0 name ≡ false
      → In e (entries (F.remove (F.join base name) s).0) ↔ In e (entries s)
  pub In-rename :
      (old new : Bytes) (s : F.State) (e : Entry)
      → equal e.0 old ≡ false
      → equal e.0 new ≡ false
      → In e (entries (F.rename (F.join base old) (F.join base new) s).0) ↔ In e (entries s)
  pub renamed-In :
      (old new : Bytes) (s : F.State)
      → In (old, false) (entries s)
      → (F.rename (F.join base old) (F.join base new) s).1 ≡ ok tt
      → In (new, false) (entries (F.rename (F.join base old) (F.join base new) s).0)
  pub In-rename_failed :
      (old new : Bytes) (s : F.State) (x : Error) (e : Entry)
      → (F.rename (F.join base old) (F.join base new) s).1 ≡ err x
      → In e (entries (F.rename (F.join base old) (F.join base new) s).0) ↔ In e (entries s)

chain_iff : {A B C : Type 0} → A ↔ B → B ↔ C → A ↔ C
chain_iff (f, g) (h, k) = (λ a. h (f a), λ c. g (k c))

module _ (F : Files) (base : Bytes) (L : ListsFiles F base) (b : Backup) where
  -- The same entries, but for the temporary file.
  abbrev pub IsSame : F.State → F.State → Type 0
  IsSame s t =
      (e : Entry) → equal e.0 (temporary_name b) ≡ false → In e (L.entries t) ↔ In e (L.entries s)

  -- The backup's file is added.
  abbrev pub IsAdded : F.State → F.State → Type 0
  IsAdded s t =
      In (filename b, false) (L.entries t)
      × ((e : Entry)
          → equal e.0 (temporary_name b) ≡ false
          → equal e.0 (filename b) ≡ false
          → In e (L.entries t) ↔ In e (L.entries s))

  rename_copied-IsSame :
      (r : F.State × Result (Unit {0})) (x : Error)
      → (rename_copied F base b r).1 ≡ err x
      → IsSame r.0 (rename_copied F base b r).0
  unfolding rename_copied
  rename_copied-IsSame (s, err y) x h e other = (λ i. i, λ i. i)
  rename_copied-IsSame (s, ok done) x h e other = L.In-rename_failed _ _ s x e h

  rename_copied-IsAdded :
      (r : F.State × Result (Unit {0}))
      → (rename_copied F base b r).1 ≡ ok tt
      → In (temporary_name b, false) (L.entries r.0)
      → IsAdded r.0 (rename_copied F base b r).0
  unfolding rename_copied
  rename_copied-IsAdded (s, err y) h i = ground arith
  rename_copied-IsAdded (s, ok done) h i =
      (L.renamed-In _ _ s i h, λ e other new. L.In-rename _ _ s e other new)

  module _ (stream : Stream) where
    copy_created-IsSame :
        (r : F.State × Result (Unit {0})) (x : Error)
        → (copy_created F base b stream r).1 ≡ err x
        → IsSame r.0 (copy_created F base b stream r).0
    unfolding copy_created
    copy_created-IsSame (s, err y) x h e other = (λ i. i, λ i. i)
    copy_created-IsSame (s, ok done) x h e other =
        chain_iff (L.In-remove _ _ e other)
          (chain_iff (rename_copied-IsSame _ x h e other) (L.In-copy _ stream s e))

    copy_created-IsAdded :
        (r : F.State × Result (Unit {0}))
        → equal (filename b) (temporary_name b) ≡ false
        → (copy_created F base b stream r).1 ≡ ok tt
        → In (temporary_name b, false) (L.entries r.0)
        → IsAdded r.0 (copy_created F base b stream r).0
    unfolding copy_created
    copy_created-IsAdded (s, err y) final h i = ground arith
    copy_created-IsAdded (s, ok done) final h i =
        let (made, same) = rename_copied-IsAdded _ h ((L.In-copy _ stream s _).1 i) in
        (
          (L.In-remove _ _ (filename b, false) final).1 made,
          λ e other new.
              chain_iff (L.In-remove _ _ e other)
                (chain_iff (same e other new) (L.In-copy _ stream s e)),
        )

    not_created :
        (r : F.State × Result (Unit {0})) (x : Error)
        → r.1 ≡ err x
        → (copy_created F base b stream r).1 ≡ err x
    unfolding copy_created
    not_created (s, err y) x h = h
    not_created (s, ok done) x h = ground arith

    pub send_backup-IsSame :
        (s : F.State) (x : Error)
        → (send_backup F base b stream s).1 ≡ err x
        → IsSame s (send_backup F base b stream s).0
    unfolding send_backup
    send_backup-IsSame s x h e other =
        chain_iff (copy_created-IsSame _ x h e other) (L.In-create _ s e other)

    pub send_backup-IsAdded :
        (s : F.State)
        → equal (filename b) (temporary_name b) ≡ false
        → (send_backup F base b stream s).1 ≡ ok tt
        → IsAdded s (send_backup F base b stream s).0
    unfolding send_backup
    send_backup-IsAdded s final h =
        elim (Result-cases (F.create (F.join base (temporary_name b)) s).1) [
          | inl (done, e) ↦
              let (made, same) = copy_created-IsAdded _ final h (L.created-In _ s e) in
              (made, λ e other new. chain_iff (same e other new) (L.In-create _ s e other))
          | inr (x, e) ↦
              let stopped = not_created (F.create (F.join base (temporary_name b)) s) x e in
              ground arith
        ]
