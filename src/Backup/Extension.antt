-- ===== src/Backup/Extension.antt =====
-- A new backup on top of the backups that a destination holds.
use uback.Base.{
  ◌≡◌, refl, sym, ap, ◌∙◌, subst, Bool, true, false, not, Option, none, some, List, [], ◌∷◌, map,
  filter, ℕ, Bytes, lookup, equal, equal_refl, equal_sym, Names, member, In, arith, if◌then◌else◌,
  ok, distinct,
}
use uback.Snapshot.{Snapshot, Backup, name}
use uback.Chain.{make_index}
use uback.Chain.Links.{full, link, IsRestorable}
use uback.Chain.Sound.{Links-more}
use uback.Chain.Index.{make_index_self, make_index-filter}
use uback.Backup.{BackupOptions, choose_base}
use uback.Backup.Choice.{first-In, is_common, choose_base-first}

-- Nothing is dropped by a test that every name passes.
filter-fresh :
    (k : Bytes) (bs : List Backup)
    → member k (map name bs) ≡ false
    → filter (λ b. not (equal (name b) k)) bs ≡ bs
unfolding member filter
filter-fresh k [] h = refl
filter-fresh k (b ∷ bs) h =
    let other : not (equal (name b) k) ≡ true = ground (arith, equal_sym (name b) k) in
    ap
      (λ t.
        if t
        then b ∷ filter (λ b. not (equal (name b) k)) bs
        else filter (λ b. not (equal (name b) k)) bs)
      other
    ∙ ap (λ l. b ∷ l) (filter-fresh k bs (ground arith))

filter-new :
    (n : Backup) (bs : List Backup)
    → member (name n) (map name bs) ≡ false
    → filter (λ b. not (equal (name b) (name n))) (n ∷ bs) ≡ bs
unfolding filter
filter-new n bs fresh =
    ap
      (λ t.
        if not t
        then n ∷ filter (λ b. not (equal (name b) (name n))) bs
        else filter (λ b. not (equal (name b) (name n))) bs)
      (equal_refl (name n))
    ∙ filter-fresh (name n) bs fresh

if-some :
    {A : Type 0} (t : Bool) (o : Option A) (a : A) → (if t then o else none) ≡ some a → o ≡ some a
if-some true o a h = h
if-some false o a h = ground arith

-- A backup with a new name hides nothing in the index.
lookup-make_index_fresh :
    (n : Backup) (bs : List Backup) (k : Bytes) (b : Backup)
    → member (name n) (map name bs) ≡ false
    → lookup k (make_index bs) ≡ some b
    → lookup k (make_index (n ∷ bs)) ≡ some b
lookup-make_index_fresh n bs k b fresh h =
    let e = ap (λ l. lookup k (make_index l)) (filter-new n bs fresh) in
    if-some (not (equal k (name n))) (lookup k (make_index (n ∷ bs))) b
      (sym (make_index-filter (λ j. not (equal j (name n))) (n ∷ bs) k) ∙ e ∙ h)

-- The backup that is made from the chosen base, or in full, can be restored from the backups of the
-- destination and itself, if each of those can be, and the new name is not among theirs.
pub choose_base-IsRestorable :
    (o : BackupOptions) (now : ℕ) (set : Names) (bs : List Backup) (base : Option Snapshot)
    (new : Snapshot)
    → distinct (map name bs) ≡ true
    → member new (map name bs) ≡ false
    → ((b : Backup) → In b bs → IsRestorable (make_index bs) b)
    → choose_base o now set bs ≡ ok base
    → IsRestorable
        (make_index (record { snapshot = new; base_snapshot = base } ∷ bs))
        (record { snapshot = new; base_snapshot = base })
choose_base-IsRestorable o now set bs none new d fresh all h = ([], full)
choose_base-IsRestorable o now set bs (some base) new d fresh all h =
    let (interval, f, common, t, parsed, newest, found, same, timed, young) =
      choose_base-first o now set bs base h in
    let i = first-In (is_common set) bs common found in
    let (rest, l) = all common i in
    (
      common ∷ rest,
      link
          (lookup-make_index_fresh _ bs base common fresh (
            subst (λ k. lookup k (make_index bs) ≡ some common) same
              (make_index_self bs common d i)))
          (Links-more _ _ (λ k b e. lookup-make_index_fresh _ bs k b fresh e) l),
    )
