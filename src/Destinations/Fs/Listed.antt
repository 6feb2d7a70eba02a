-- ===== src/Destinations/Fs/Listed.antt =====
-- What `ListBackups` of the fs destination lists behind `SendBackup`.
use uback.Base.{
  ◌≡◌, refl, sym, ap, ◌∙◌, true, false, Bool-cases, Result-cases, inl, inr, List, [], ◌∷◌, In,
  In-cases, here, there, Result, ok,
}
use uback.Snapshot.{Backup}
use uback.Snapshot.Filename.{parse_backup_filename}
use uback.Destinations.{Entry, is_skipped, listed_backups}

-- A backup is listed exactly if a file's name gives it.
pub listed-entry :
    (es : List Entry) (c : Backup)
    → In c (listed_backups es)
    → (e : Entry) × In e es × (is_skipped e ≡ false) × (parse_backup_filename e.0 true ≡ ok c)
unfolding listed_backups
listed-entry [] c i = elim i [ ]
listed-entry (e ∷ es) c i = elim (Bool-cases (is_skipped e)) [
  | inl skipped ↦ let (x, j, k, p) = listed-entry es c (rw skipped at i) in (x, there j, k, p)
  | inr shown ↦ elim (Result-cases (parse_backup_filename e.0 true)) [
    | inl (b, parsed) ↦ elim (In-cases (rw (shown, parsed) at i)) [
      | inl q ↦ (e, here refl, shown, parsed ∙ ap (λ b. Result.ok b) (sym q))
      | inr j ↦ let (x, j, k, p) = listed-entry es c j in (x, there j, k, p)
    ]
    | inr (x, unparsed) ↦
        let (x, j, k, p) = listed-entry es c (rw (shown, unparsed) at i) in (x, there j, k, p)
  ]
]

pub entry-listed :
    (es : List Entry) (c : Backup) (e : Entry)
    → In e es
    → is_skipped e ≡ false
    → parse_backup_filename e.0 true ≡ ok c
    → In c (listed_backups es)
unfolding listed_backups
entry-listed [] c e i shown parsed = elim i [ ]
entry-listed (x ∷ es) c e (here q) shown parsed =
    let shown' = ap is_skipped (sym q) ∙ shown in
    let parsed' = ap (λ x. parse_backup_filename x.0 true) (sym q) ∙ parsed in
    rw (shown', parsed') (here refl)
entry-listed (x ∷ es) c e (there i) shown parsed =
    let later = entry-listed es c e i shown parsed in
    elim (Bool-cases (is_skipped x)) [
      | inl skipped ↦ rw skipped later
      | inr kept ↦ elim (Result-cases (parse_backup_filename x.0 true)) [
        | inl (b, h) ↦ rw (kept, h) (there later)
        | inr (y, h) ↦ rw (kept, h) later
      ]
    ]
