-- ===== src/Destinations/Fs/Sent.antt =====
-- What `ListBackups` of the fs destination gives behind `SendBackup`.
use uback.Base.{
  ◌≡◌, ◌≢◌, ◌↔◌, ◌⊎◌, sym, ap, ◌∙◌, true, false, Bool-cases, Result-cases, inl, inr, List, Bytes,
  equal, equal_iff, In, Result, ok, err, Error, arith,
}
use mathlib.Core.Path.{subst₂}
use uback.Snapshot.{Backup, filename}
use uback.Snapshot.Filename.{parse_backup_filename}
use uback.Snapshot.Filename.Shape.{is_valid}
use uback.Snapshot.Filename.RoundTrip.{parse_backup_filename-filename}
use uback.Interfaces.{Stream}
use uback.Destinations.{Entry, is_skipped, listed_backups}
use uback.Destinations.Fs.{Files, send_backup, list_backups}
use uback.Destinations.Fs.Listed.{listed-entry, entry-listed}
use uback.Destinations.Fs.Naming.{shown_filename, not_temporary}
use uback.Destinations.Fs.Entries.{
  ListsFiles, IsSame, IsAdded, send_backup-IsSame, send_backup-IsAdded,
}

ok_not_err : {A : Type 0} {a : A} {x : Error} → Result.ok a ≢ err x
ok_not_err h = cc

module _ (F : Files) (base : Bytes) (L : ListsFiles F base) (b : Backup) where
  module _ (s t : F.State) (c : Backup) where
    same_list :
        IsSame F base L b s t
        → In c (listed_backups (L.entries t)) ↔ In c (listed_backups (L.entries s))
    same_list same = (
      λ i.
          let (e, j, shown, parsed) = listed-entry (L.entries t) c i in
          entry-listed (L.entries s) c e ((same e (not_temporary b e shown)).0 j) shown parsed,
      λ i.
          let (e, j, shown, parsed) = listed-entry (L.entries s) c i in
          entry-listed (L.entries t) c e ((same e (not_temporary b e shown)).1 j) shown parsed,
    )

    -- An entry of the backup's name gives the backup.
    named_backup :
        (e : Entry)
        → is_valid b ≡ true
        → equal e.0 (filename b) ≡ true
        → parse_backup_filename e.0 true ≡ ok c
        → c ≡ b
    named_backup e valid same parsed =
        let q = ap (λ n. parse_backup_filename n true) ((equal_iff e.0 (filename b)).0 same) in
        let r : Result.ok c ≡ ok b = sym parsed ∙ q ∙ parse_backup_filename-filename b true valid in
        ground arith

    added_list :
        is_valid b ≡ true
        → is_skipped (filename b, false) ≡ false
        → IsAdded F base L b s t
        → In c (listed_backups (L.entries t)) ↔ (c ≡ b) ⊎ In c (listed_backups (L.entries s))
    added_list valid visible (made, same) = (
      λ i.
          let (e, j, shown, parsed) = listed-entry (L.entries t) c i in
          elim (Bool-cases (equal e.0 (filename b))) [
            | inl q ↦ inl (named_backup e valid q parsed)
            | inr q ↦ inr (
                entry-listed (L.entries s) c e ((same e (not_temporary b e shown) q).0 j) shown
                  parsed)
          ],
      λ i. elim i [
        | inl q ↦
            entry-listed (L.entries t) c (filename b, false) made visible
              (parse_backup_filename-filename b true valid ∙ ap (λ b. Result.ok b) (sym q))
        | inr i ↦
            let (e, j, shown, parsed) = listed-entry (L.entries s) c i in
            elim (Bool-cases (equal e.0 (filename b))) [
              | inl q ↦
                  entry-listed (L.entries t) c (filename b, false) made visible
                    (parse_backup_filename-filename b true valid
                      ∙ ap (λ b. Result.ok b) (sym (named_backup e valid q parsed)))
              | inr q ↦
                  entry-listed (L.entries t) c e ((same e (not_temporary b e shown) q).1 j) shown
                    parsed
            ]
      ],
    )

  listed_lem :
      (s : F.State) (bs : List Backup)
      → list_backups F base s ≡ ok bs
      → listed_backups (L.entries s) ≡ bs
  unfolding list_backups
  listed_lem s bs h =
      let q : list_backups F base s ≡ ok (listed_backups (L.entries s)) =
        ap
          (λ r. elim r as (λ _. Result (List Backup)) [
            | err e ↦ err e
            | ok entries ↦ ok (listed_backups entries)
          ])
          (L.read_directory-entries s) in
      let r : Result.ok (listed_backups (L.entries s)) ≡ ok bs = sym q ∙ h in ground arith

  -- Behind `SendBackup`, `ListBackups` gives what it gave before, and the backup exactly if it is sent without an
  -- error or was there before: for a backup whose names are valid, where the calls of `os` change only the
  -- entries that they name.
  pub send_backup-list_backups :
      (stream : Stream) (s : F.State) (c : Backup) (before after : List Backup)
      → is_valid b ≡ true
      → list_backups F base s ≡ ok before
      → list_backups F base (send_backup F base b stream s).0 ≡ ok after
      → In c after ↔ (((send_backup F base b stream s).1 ≡ ok tt) × (c ≡ b)) ⊎ In c before
  unfolding list_backups
  send_backup-list_backups stream s c before after valid h k =
      let p : listed_backups (L.entries s) ≡ before = listed_lem s before h in
      let q : listed_backups (L.entries (send_backup F base b stream s).0) ≡ after =
        listed_lem _ after k in
      let visible = shown_filename b.snapshot b.base_snapshot (ground arith) in
      let final = not_temporary b (filename b, false) visible in
      subst₂
        (λ after before.
          In c after ↔ (((send_backup F base b stream s).1 ≡ ok tt) × (c ≡ b)) ⊎ In c before)
        q p
        (elim (Result-cases (send_backup F base b stream s).1) [
          | inl (done, sent) ↦
              let (f, g) =
                added_list s _ c valid visible
                  (send_backup-IsAdded F base L b stream s final sent) in
              (
                λ i. elim (f i) [ inl e ↦ inl (sent, e) | inr j ↦ inr j ],
                λ i. elim i [ inl (_, e) ↦ g (inl e) | inr j ↦ g (inr j) ],
              )
          | inr (x, failed) ↦
              let (f, g) = same_list s _ c (send_backup-IsSame F base L b stream s x failed) in
              (
                λ i. inr (f i),
                λ i. elim i [
                  | inl (sent, e) ↦ absurd (ok_not_err (sym sent ∙ failed))
                  | inr j ↦ g j
                ],
              )
        ])
