-- ===== src/Destinations/Fs/Matching.antt =====
-- Which backup the name of a file gives, and which backups have a name.
use uback.Base.{
  ◌≡◌, refl, sym, ap, ◌∙◌, true, false, not, inl, inr, List, [], ◌∷◌, Bytes, equal, equal_iff, map,
  member, distinct, filter, In, Result, ok, arith, some, lookup, equal_sym,
}
use uback.Snapshot.{Backup, filename, name}
use uback.Snapshot.Filename.{parse_backup_filename, path_base}
use uback.Snapshot.Filename.Shape.{is_valid}
use uback.Snapshot.Filename.RoundTrip.{parse_backup_filename-filename, parse_backup_filename_iff}
use uback.Chain.{make_index}
use uback.Chain.Index.{make_index_self}

ok-injective : {A : Type 0} {a b : A} → Result.ok a ≡ ok b → a ≡ b
ok-injective h = ground arith

some-injective : {A : Type 0} {a b : A} → some a ≡ some b → a ≡ b
some-injective h = ground arith

-- A name that is parsed as a backup is that backup's, if it has no slash.
pub parsed_name :
    (n : Bytes) (b : Backup)
    → path_base n ≡ n
    → parse_backup_filename n true ≡ ok b
    → (is_valid b ≡ true) × (n ≡ filename b)
parsed_name n b plain h =
    let (valid, named) = (parse_backup_filename_iff n true b).0 h in
    elim named [ inl e ↦ (valid, sym plain ∙ e) | inr (q, e) ↦ ground arith ]

-- The file of a backup gives that backup.
pub named_as :
    (n : Bytes) (b c : Backup)
    → is_valid b ≡ true
    → equal n (filename b) ≡ true
    → parse_backup_filename n true ≡ ok c
    → c ≡ b
named_as n b c valid same parsed =
    let q = ap (λ n. parse_backup_filename n true) ((equal_iff n (filename b)).0 same) in
    ok-injective (sym parsed ∙ q ∙ parse_backup_filename-filename b true valid)

-- Backups of one name are the same where names differ.
pub same_name :
    (bs : List Backup) (b c : Backup)
    → distinct (map name bs) ≡ true
    → In b bs
    → In c bs
    → name c ≡ name b
    → c ≡ b
same_name bs b c names i j q = some-injective (
    sym (make_index_self bs c names j)
    ∙ ap (λ k. lookup k (make_index bs)) q
    ∙ make_index_self bs b names i)

pub filter-fresh :
    (b : Backup) (bs : List Backup)
    → member (name b) (map name bs) ≡ false
    → filter (λ c. not (equal (name c) (name b))) bs ≡ bs
unfolding filter member
filter-fresh b [] h = refl
filter-fresh b (c ∷ bs) h =
    let other : equal (name c) (name b) ≡ false = equal_sym (name c) (name b) ∙ ground arith in
    rw other (ap (λ l. c ∷ l) (filter-fresh b bs (ground arith)))
