-- ===== src/Destinations/Fs/Parts.antt =====
-- What the fs destination lists where entries are in another order, or some are left out.
use uback.Base.{
  ◌≡◌, refl, ap, ◌∙◌, true, false, not, Bool-cases, Result-cases, inl, inr, List, [], ◌∷◌, Bytes,
  equal, filter, In, here, there, Result, ok, err,
}
use uback.Snapshot.{Backup, filename, name}
use uback.Snapshot.Filename.{parse_backup_filename}
use uback.Sorting.Reordered.{Reordered, untouched, cons, swap, trans}
use uback.Destinations.{Entry, is_skipped, with_parsed, listed_backups}
use uback.Destinations.Fs.Naming.{temporary_name, not_temporary}

-- The entries of other names.
abbrev pub others : Bytes → List Entry → List Entry
others n = filter (λ e. not (equal e.0 n))

with_parsed-Reordered :
    (r : Result Backup) {bs cs : List Backup}
    → Reordered bs cs
    → Reordered (with_parsed r bs) (with_parsed r cs)
with_parsed-Reordered (ok b) r = cons r
with_parsed-Reordered (err x) r = r

with_parsed-swap :
    (r q : Result Backup) (bs : List Backup)
    → Reordered (with_parsed r (with_parsed q bs)) (with_parsed q (with_parsed r bs))
with_parsed-swap (ok b) (ok c) bs = swap
with_parsed-swap (ok b) (err x) bs = untouched
with_parsed-swap (err x) (ok c) bs = untouched
with_parsed-swap (err x) (err y) bs = untouched

pub listed_backups-Reordered :
    {es fs : List Entry} → Reordered es fs → Reordered (listed_backups es) (listed_backups fs)
unfolding listed_backups
listed_backups-Reordered untouched = untouched
listed_backups-Reordered (cons {x = e} r) = elim (Bool-cases (is_skipped e)) [
  | inl q ↦ rw q (listed_backups-Reordered r)
  | inr q ↦
      rw q (with_parsed-Reordered (parse_backup_filename e.0 true) (listed_backups-Reordered r))
]
listed_backups-Reordered (swap {x = e} {y = f}) = elim (Bool-cases (is_skipped e)) [
  | inl q ↦ elim (Bool-cases (is_skipped f)) [
    | inl p ↦ rw (q, p) untouched
    | inr p ↦ rw (q, p) untouched
  ]
  | inr q ↦ elim (Bool-cases (is_skipped f)) [
    | inl p ↦ rw (q, p) untouched
    | inr p ↦
        rw (q, p)
          (with_parsed-swap (parse_backup_filename e.0 true) (parse_backup_filename f.0 true) _)
  ]
]
listed_backups-Reordered (trans r s) =
    trans (listed_backups-Reordered r) (listed_backups-Reordered s)

-- The temporary file is not listed.
pub listed_backups-temporary :
    (b : Backup) (es : List Entry)
    → listed_backups (others (temporary_name b) es) ≡ listed_backups es
unfolding listed_backups filter
listed_backups-temporary b [] = refl
listed_backups-temporary b (e ∷ es) =
    let rest = listed_backups-temporary b es in
    elim (Bool-cases (equal e.0 (temporary_name b))) [
      | inl same ↦ elim (Bool-cases (is_skipped e)) [
        | inl q ↦ rw (same, q) rest
        | inr q ↦ let other = not_temporary b e q in cc
      ]
      | inr other ↦ elim (Bool-cases (is_skipped e)) [
        | inl q ↦ rw (other, q) rest
        | inr q ↦ rw (other, q) (ap (with_parsed (parse_backup_filename e.0 true)) rest)
      ]
    ]

-- Without the entries of a name, the backups of another name are listed, if only that entry gives the backup.
pub listed_backups-others :
    (b : Backup) (es : List Entry)
    → ((e : Entry) (c : Backup)
        → In e es
        → is_skipped e ≡ false
        → parse_backup_filename e.0 true ≡ ok c
        → equal e.0 (filename b) ≡ equal (name c) (name b))
    → listed_backups (others (filename b) es)
      ≡ filter (λ c. not (equal (name c) (name b))) (listed_backups es)
unfolding listed_backups filter
listed_backups-others b [] only = refl
listed_backups-others b (e ∷ es) only =
    let rest = listed_backups-others b es (λ f c i. only f c (there i)) in
    elim (Bool-cases (is_skipped e)) [
      | inl q ↦ elim (Bool-cases (equal e.0 (filename b))) [
        | inl same ↦ rw (same, q) rest
        | inr other ↦ rw (other, q) rest
      ]
      | inr q ↦ elim (Result-cases (parse_backup_filename e.0 true)) [
        | inl (c, p) ↦
            let same = only e c (here refl) q p in
            elim (Bool-cases (equal (name c) (name b))) [
              | inl n ↦ rw (same ∙ n, q, p, n) rest
              | inr n ↦ rw (same ∙ n, q, p, n) (ap (λ l. c ∷ l) rest)
            ]
        | inr (x, p) ↦ elim (Bool-cases (equal e.0 (filename b))) [
          | inl same ↦ rw (same, q, p) rest
          | inr other ↦ rw (other, q, p) rest
        ]
      ]
    ]
