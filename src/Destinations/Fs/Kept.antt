-- ===== src/Destinations/Fs/Kept.antt =====
-- The fs destination keeps its backups as the histories of commands rely on.
use uback.Base.{
  ◌≡◌, refl, sym, ap, ◌∙◌, subst, true, false, not, Bool-cases, inl, inr, List, ◌∷◌, Bytes, equal,
  equal_iff, equal_refl, map, member, distinct, filter, In, Result, ok, err, Error, arith,
}
use uback.Snapshot.{Backup, filename, name}
use uback.Snapshot.Filename.{path_base}
use uback.Snapshot.Filename.Shape.{is_valid}
use uback.Snapshot.Filename.RoundTrip.{parse_backup_filename-filename}
use uback.Retention.Backups.Restorable.{In-member}
use uback.Interfaces.{Stream}
use uback.Sorting.Reordered.{Reordered}
use uback.Destinations.{Entry, listed_backups}
use uback.Destinations.Fs.{
  Files, rename_copied, copy_created, send_backup, list_backups, fs_destination,
}
use uback.Destinations.Fs.Naming.{temporary_name, shown_filename}
use uback.Destinations.Fs.Listed.{listed-entry, entry-listed}
use uback.Destinations.Fs.Parts.{
  others, listed_backups-Reordered, listed_backups-temporary, listed_backups-others,
}
use uback.History.{KeepsBackups}
use uback.Destinations.Fs.Matching.{parsed_name, named_as, same_name, filter-fresh}

-- The directory can be read, and its entries have names without slashes. Creating or removing a file touches the
-- entries of its name only, copying into one none; a renaming that succeeds puts a file in place of the two
-- names, in some order, and one that fails changes nothing. A file that is there can be removed.
pub record KeepsEntries (F : Files) (base : Bytes) : Type 0 where
  pub entries : F.State → List Entry
  pub read_directory-entries : (s : F.State) → F.read_directory base s ≡ ok (entries s)
  pub plain : (s : F.State) (e : Entry) → In e (entries s) → path_base e.0 ≡ e.0
  pub entries-create :
      (n : Bytes) (s : F.State)
      → others n (entries (F.create (F.join base n) s).0) ≡ others n (entries s)
  pub entries-copy :
      (p : Bytes) (stream : Stream) (s : F.State) → entries (F.copy p stream s).0 ≡ entries s
  pub entries-remove :
      (n : Bytes) (s : F.State)
      → others n (entries (F.remove (F.join base n) s).0) ≡ others n (entries s)
  pub entries-removed :
      (n : Bytes) (s : F.State)
      → In (n, false) (entries s)
      → entries (F.remove (F.join base n) s).0 ≡ others n (entries s)
  pub entries-renamed :
      (old new : Bytes) (s : F.State)
      → (F.rename (F.join base old) (F.join base new) s).1 ≡ ok tt
      → Reordered
          ((new, false) ∷ others old (others new (entries s)))
          (entries (F.rename (F.join base old) (F.join base new) s).0)
  pub entries-rename_failed :
      (old new : Bytes) (s : F.State) (x : Error)
      → (F.rename (F.join base old) (F.join base new) s).1 ≡ err x
      → entries (F.rename (F.join base old) (F.join base new) s).0 ≡ entries s

module _ (F : Files) (base : Bytes) (L : KeepsEntries F base) where
  abbrev pub backups_of : F.State → List Backup
  backups_of s = listed_backups (L.entries s)

  -- A listed backup is a file of its name.
  listed_file :
      (s : F.State) (b : Backup)
      → In b (backups_of s)
      → (is_valid b ≡ true) × In (filename b, false) (L.entries s)
  listed_file s b i =
      let ((n, dir), j, shown, parsed) = listed-entry (L.entries s) b i in
      let (valid, q) = parsed_name n b (L.plain s (n, dir) j) parsed in
      let file : dir ≡ false = ground arith in
      (
        valid,
        subst (λ d. In (filename b, d) (L.entries s)) file
            (subst (λ n. In (n, dir) (L.entries s)) q j),
      )

  remove_backup-backups :
      (b : Backup) (s : F.State)
      → In b (backups_of s)
      → distinct (map name (backups_of s)) ≡ true
      → backups_of (F.remove (F.join base (filename b)) s).0
        ≡ filter (λ c. not (equal (name c) (name b))) (backups_of s)
  remove_backup-backups b s i names =
      let (valid, file) = listed_file s b i in
      ap listed_backups (L.entries-removed (filename b) s file)
      ∙ listed_backups-others b (L.entries s) (λ e c j shown parsed.
        let (valid', q) = parsed_name e.0 c (L.plain s e j) parsed in
        elim (Bool-cases (equal (name c) (name b))) [
          | inl n ↦
              let same =
                same_name (backups_of s) b c names i (entry-listed (L.entries s) c e j shown parsed)
                  ((equal_iff (name c) (name b)).0 n) in
              (equal_iff e.0 (filename b)).1 (q ∙ ap filename same) ∙ sym n
          | inr n ↦ elim (Bool-cases (equal e.0 (filename b))) [
            | inl m ↦
                let same = named_as e.0 b c valid m parsed in
                m ∙ sym (ap (λ c. equal (name c) (name b)) same ∙ equal_refl (name b))
            | inr m ↦ m ∙ sym n
          ]
        ])

  module _ (b : Backup) (valid : is_valid b ≡ true) where
    same_but_temporary :
        (s t : F.State)
        → others (temporary_name b) (L.entries t) ≡ others (temporary_name b) (L.entries s)
        → backups_of t ≡ backups_of s
    same_but_temporary s t q =
        sym (listed_backups-temporary b (L.entries t))
        ∙ ap listed_backups q
        ∙ listed_backups-temporary b (L.entries s)

    new_listed :
        (es : List Entry) → listed_backups ((filename b, false) ∷ es) ≡ b ∷ listed_backups es
    unfolding listed_backups
    new_listed es =
        let visible = shown_filename b.snapshot b.base_snapshot (ground arith) in
        rw (visible, parse_backup_filename-filename b true valid) refl

    -- Without the backup's file the same backups are listed, if it is not listed.
    without_new :
        (s : F.State)
        → member (name b) (map name (backups_of s)) ≡ false
        → listed_backups (others (filename b) (L.entries s)) ≡ backups_of s
    without_new s fresh =
        listed_backups-others b (L.entries s) (λ e c j shown parsed.
          let i = entry-listed (L.entries s) c e j shown parsed in
          let (valid', q) = parsed_name e.0 c (L.plain s e j) parsed in
          elim (Bool-cases (equal (name c) (name b))) [
            | inl n ↦
                let k = In-member (backups_of s) c i in
                let k' =
                  subst (λ k. member k (map name (backups_of s)) ≡ true)
                    ((equal_iff (name c) (name b)).0 n) k in
                cc
            | inr n ↦ elim (Bool-cases (equal e.0 (filename b))) [
              | inl m ↦
                  let same = named_as e.0 b c valid m parsed in
                  m ∙ sym (ap (λ c. equal (name c) (name b)) same ∙ equal_refl (name b))
              | inr m ↦ m ∙ sym n
            ]
          ])
        ∙ filter-fresh b (backups_of s) fresh

    -- The steps behind the creation of the temporary file.
    module _ (stream : Stream) where
      rename_copied-failed :
          (r : F.State × Result (Unit {0})) (x : Error)
          → (rename_copied F base b r).1 ≡ err x
          → L.entries (rename_copied F base b r).0 ≡ L.entries r.0
      unfolding rename_copied
      rename_copied-failed (s, err y) x h = refl
      rename_copied-failed (s, ok done) x h = L.entries-rename_failed _ _ s x h

      copy_created-failed :
          (r : F.State × Result (Unit {0})) (x : Error)
          → (copy_created F base b stream r).1 ≡ err x
          → backups_of (copy_created F base b stream r).0 ≡ backups_of r.0
      unfolding copy_created
      copy_created-failed (s, err y) x h = refl
      copy_created-failed (s, ok done) x h = same_but_temporary s _ (
          L.entries-remove (temporary_name b) _
          ∙ ap (others (temporary_name b)) (rename_copied-failed _ x h ∙ L.entries-copy _ stream s))

      send_backup-failed :
          (s : F.State) (x : Error)
          → (send_backup F base b stream s).1 ≡ err x
          → backups_of (send_backup F base b stream s).0 ≡ backups_of s
      unfolding send_backup
      send_backup-failed s x h =
          copy_created-failed (F.create (F.join base (temporary_name b)) s) x h
          ∙ same_but_temporary s _ (L.entries-create (temporary_name b) s)

      rename_copied-sent :
          (r : F.State × Result (Unit {0}))
          → member (name b) (map name (backups_of r.0)) ≡ false
          → (rename_copied F base b r).1 ≡ ok tt
          → Reordered (b ∷ backups_of r.0) (backups_of (rename_copied F base b r).0)
      unfolding rename_copied
      rename_copied-sent (s, err y) fresh h = ground arith
      rename_copied-sent (s, ok done) fresh h =
          let rest =
            new_listed (others (temporary_name b) (others (filename b) (L.entries s)))
            ∙ ap (λ l. b ∷ l)
                (listed_backups-temporary b (others (filename b) (L.entries s))
                  ∙ without_new s fresh) in
          subst
            (λ l. Reordered l (
              backups_of
                (F.rename (F.join base (temporary_name b)) (F.join base (filename b)) s).0))
            rest (listed_backups-Reordered (L.entries-renamed (temporary_name b) (filename b) s h))

      copy_created-sent :
          (r : F.State × Result (Unit {0}))
          → member (name b) (map name (backups_of r.0)) ≡ false
          → (copy_created F base b stream r).1 ≡ ok tt
          → Reordered (b ∷ backups_of r.0) (backups_of (copy_created F base b stream r).0)
      unfolding copy_created
      copy_created-sent (s, err y) fresh h = ground arith
      copy_created-sent (s, ok done) fresh h =
          let copied =
            ap listed_backups (L.entries-copy (F.join base (temporary_name b)) stream s) in
          let sent =
            rename_copied-sent (F.copy (F.join base (temporary_name b)) stream s)
              (ap (λ l. member (name b) (map name l)) copied ∙ fresh) h in
          let removed =
            same_but_temporary
              (rename_copied F base b (F.copy (F.join base (temporary_name b)) stream s)).0 _
              (L.entries-remove (temporary_name b) _) in
          subst (Reordered (b ∷ backups_of s)) (sym removed) (
            subst
              (λ l. Reordered (b ∷ l) (
                backups_of
                  (rename_copied F base b (F.copy (F.join base (temporary_name b)) stream s)).0))
              copied sent)

      send_backup-sent :
          (s : F.State)
          → member (name b) (map name (backups_of s)) ≡ false
          → (send_backup F base b stream s).1 ≡ ok tt
          → Reordered (b ∷ backups_of s) (backups_of (send_backup F base b stream s).0)
      unfolding send_backup
      send_backup-sent s fresh h =
          let made = same_but_temporary s _ (L.entries-create (temporary_name b) s) in
          subst (λ l. Reordered (b ∷ l) (backups_of (send_backup F base b stream s).0)) made
            (copy_created-sent (F.create (F.join base (temporary_name b)) s)
              (ap (λ l. member (name b) (map name l)) made ∙ fresh) h)

  -- The list, the removals and the sendings of an fs destination.
  pub fs_destination-KeepsBackups : KeepsBackups (fs_destination F base)
  unfolding fs_destination list_backups
  fs_destination-KeepsBackups = record {
    backups = backups_of;
    list_backups-backups = λ s.
        ap
          (λ r. elim r as (λ _. Result (List Backup)) [
            | err e ↦ err e
            | ok entries ↦ ok (listed_backups entries)
          ])
          (L.read_directory-entries s);
    backups-remove_backup = remove_backup-backups;
    backups_sent = λ b stream s valid fresh h. send_backup-sent b valid stream s fresh h;
    backups_failed = λ b stream s e valid h. send_backup-failed b valid stream s e h;
  }
