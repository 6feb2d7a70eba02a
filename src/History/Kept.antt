-- ===== src/History/Kept.antt =====
-- Pruning a destination, and the backup that a run makes, leave its backups sound.
use uback.Base.{
  ◌&&◌, distinct, equal_sym, In, In-filter, filter-In, here, there, ◌≡◌, refl, sym, ap, ◌∙◌, subst,
  Bool, true, false, not, Option, none, ℕ, Names, List, [], ◌∷◌, arith, map, member, filter, equal,
  if◌then◌else◌, inl, inr, Result, ok, err, ◌>>=◌, ◌⊎◌, bind-eq-ok,
}
use uback.Snapshot.{Snapshot, Backup, name}
use uback.Interfaces.{Source, Destination}
use uback.Sorting.{sort_backups, sorted_list_backups, sorted_list_bookmarks, sorted_list_archives}
use uback.Sorting.Reordered.{Reordered, back, filter-Reordered, In-Reordered}
use uback.Sorting.Descending.{sort_backups-Reordered}
use uback.Chain.{make_index}
use uback.Chain.Links.{Links, full, IsRestorable}
use uback.Chain.Sound.{IsSound, IsSound-Reordered, distinct-filter}
use uback.Retention.{RetentionPolicy, backup_subject}
use uback.Retention.Apply.{apply_retention_policies}
use uback.Retention.Backups.{get_pruned_backups, select_pruned, retain_chains}
use uback.Retention.Backups.Restorable.{left_of, get_pruned_backups-IsRestorable}
use uback.Prune.{remove_each, prune_backups, cmd_prune_backups}
use uback.Backup.{BackupOptions, snapshots_set, choose_base, plan_backup}
use uback.Backup.Extension.{choose_base-IsRestorable}
use uback.History.{KeepsBackups}

pub ok-injective : {A : Type 0} {a b : A} → Result.ok a ≡ ok b → a ≡ b
ok-injective h = ground arith

-- By no policy nothing is pruned.
get_pruned_backups_nil :
    (bs pruned : List Backup) → get_pruned_backups bs [] ≡ ok pruned → pruned ≡ []
unfolding get_pruned_backups select_pruned
get_pruned_backups_nil bs pruned h =
    let (c, e, q) = bind-eq-ok _ (select_pruned bs []) h in ground arith

filter-none : (bs : List Backup) → filter (λ b. false) bs ≡ []
unfolding filter
filter-none [] = refl
filter-none (b ∷ bs) = filter-none bs

and-both : (a b : Bool) → (a && b) ≡ true → (a ≡ true) × (b ≡ true)
and-both true b h = (refl, h)
and-both false b h = ground arith

member-other :
    (xs : List Backup) (x b : Backup)
    → In b xs
    → not (member (name x) (map name xs)) ≡ true
    → equal (name b) (name x) ≡ false
unfolding member
member-other [] x b i h = elim i [ ]
member-other (y ∷ xs) x b (here q) h =
    ap (λ c. equal (name c) (name x)) q ∙ equal_sym (name y) (name x) ∙ ground arith
member-other (y ∷ xs) x b (there i) h = member-other xs x b i (ground arith)

left_of-nil : (bs : List Backup) → left_of bs [] ≡ bs
unfolding filter member
left_of-nil [] = refl
left_of-nil (b ∷ bs) = ap (λ l. b ∷ l) (left_of-nil bs)

-- What is pruned from sound backups leaves them sound.
left_of-IsSound :
    (bs : List Backup) (ps : List RetentionPolicy) (pruned : List Backup)
    → get_pruned_backups bs ps ≡ ok pruned
    → IsSound bs
    → IsSound (left_of bs pruned)
left_of-IsSound bs [] pruned h s =
    subst IsSound (sym (ap (left_of bs) (get_pruned_backups_nil bs pruned h) ∙ left_of-nil bs)) s
left_of-IsSound bs (p ∷ ps) pruned h s = record {
  names = distinct-filter _ bs s.names;
  restorable = λ b. get_pruned_backups-IsRestorable bs p ps pruned b s.names h;
}

left_of-cons :
    (x : Backup) (xs bs : List Backup)
    → left_of (filter (λ c. not (equal (name c) (name x))) bs) xs ≡ left_of bs (x ∷ xs)
unfolding filter member
left_of-cons x xs [] = refl
left_of-cons x xs (b ∷ bs) = ground (arith, left_of-cons x xs bs)

-- What is pruned is some of the backups.
get_pruned_backups-filter :
    (bs : List Backup) (ps : List RetentionPolicy) (pruned : List Backup)
    → get_pruned_backups bs ps ≡ ok pruned
    → (p : Backup → Bool) × (filter p bs ≡ pruned)
unfolding get_pruned_backups select_pruned
get_pruned_backups-filter bs [] pruned h =
    (λ b. false, filter-none bs ∙ sym (get_pruned_backups_nil bs pruned h))
get_pruned_backups-filter bs (p ∷ ps) pruned h =
    let (c, e, h₁) = bind-eq-ok _ (select_pruned bs (p ∷ ps)) h in
    let (retained, e₁, h₂) =
      bind-eq-ok (apply_retention_policies backup_subject (p ∷ ps) c.subjects) _ h₁ in
    (λ b. not (member (name b) (retain_chains c.chains retained retained)), ok-injective h₂)

module _ (D : Destination) (K : KeepsBackups D) where
  remove_each-backups :
      (pruned : List Backup) (d : D.State)
      → ((b : Backup) → In b pruned → In b (K.backups d))
      → distinct (map name pruned) ≡ true
      → distinct (map name (K.backups d)) ≡ true
      → K.backups (remove_each D.remove_backup pruned d) ≡ left_of (K.backups d) pruned
  unfolding remove_each distinct
  remove_each-backups [] d into differ names = sym (left_of-nil (K.backups d))
  remove_each-backups (x ∷ xs) d into differ names =
      let left = K.backups-remove_backup x d (into x (here refl)) names in
      let (other, differ') = and-both _ _ differ in
      let stays = λ (b : Backup) (i : In b xs). subst (In b) (sym left) (
        In-filter (λ c. not (equal (name c) (name x))) (into b (there i))
          (rw (member-other xs x b i other) refl)) in
      let names' = ap (λ l. distinct (map name l)) left ∙ distinct-filter _ (K.backups d) names in
      remove_each-backups xs (D.remove_backup x d).0 stays differ' names'
      ∙ ap (λ l. left_of l xs) left
      ∙ left_of-cons x xs (K.backups d)

  -- The backups are given to the pruning in any order.
  removed-IsSound :
      (bs : List Backup) (ps : List RetentionPolicy) (pruned : List Backup) (d : D.State)
      → Reordered (K.backups d) bs
      → get_pruned_backups bs ps ≡ ok pruned
      → IsSound (K.backups d)
      → IsSound (K.backups (remove_each D.remove_backup pruned d))
  removed-IsSound bs ps pruned d r h s =
      let (p, some_of) = get_pruned_backups-filter bs ps pruned h in
      let into = λ (b : Backup) (i : In b pruned).
        In-Reordered (back r) (filter-In bs p (subst (In b) (sym some_of) i)).0 in
      let sound = IsSound-Reordered (K.backups d) bs r s in
      let differ =
        ap (λ l. distinct (map name l)) (sym some_of) ∙ distinct-filter p bs sound.names in
      subst IsSound (sym (remove_each-backups pruned d into differ s.names)) (
        IsSound-Reordered (left_of bs pruned) (left_of (K.backups d) pruned)
          (back (filter-Reordered _ r))
          (left_of-IsSound bs ps pruned h (IsSound-Reordered (K.backups d) bs r s)))

  pub prune_backups-IsSound :
      (bs : List Backup) (ps : List RetentionPolicy) (d : D.State)
      → Reordered (K.backups d) bs
      → IsSound (K.backups d)
      → IsSound (K.backups (prune_backups D bs ps d).0)
  unfolding prune_backups
  prune_backups-IsSound bs ps d r s = go (get_pruned_backups bs ps) refl
    where
      go :
          (result : Result (List Backup))
          → get_pruned_backups bs ps ≡ result
          → IsSound (
              K.backups
                (elim result as (λ _. D.State × Result (Unit {0})) [
                  | err e ↦ (d, err e)
                  | ok pruned ↦ (remove_each D.remove_backup pruned d, ok tt)
                ]).0)
      go (ok pruned) e = removed-IsSound bs ps pruned d r e s
      go (err x) e = s

  pub sorted_list_backups-backups :
      (d : D.State) → sorted_list_backups D d ≡ ok (sort_backups (K.backups d))
  unfolding sorted_list_backups
  sorted_list_backups-backups d = rw K.list_backups-backups

  pub cmd_prune_backups-IsSound :
      (dry_run : Bool) (ps : List RetentionPolicy) (d : D.State)
      → IsSound (K.backups d)
      → IsSound (K.backups (cmd_prune_backups D dry_run ps d).0)
  unfolding cmd_prune_backups
  cmd_prune_backups-IsSound dry_run ps d s = go dry_run _ (
      sym
        (ap (λ r. r >>= λ backups. get_pruned_backups backups ps) (sorted_list_backups-backups d)))
    where
      go :
          (dry : Bool) (result : Result (List Backup))
          → get_pruned_backups (sort_backups (K.backups d)) ps ≡ result
          → IsSound (
              K.backups
                (elim result as (λ _. D.State × Result (List Backup)) [
                  | err e ↦ (d, err e)
                  | ok pruned ↦ (if dry then d else remove_each D.remove_backup pruned d, ok pruned)
                ]).0)
      go dry (err x) e = s
      go true (ok pruned) e = s
      go false (ok pruned) e =
          removed-IsSound _ ps pruned d (back (sort_backups-Reordered (K.backups d))) e s

-- The plan of a run, from the backups of the destination.
pub plan_backup-choose_base :
    (S : Source) (D : Destination) (o : BackupOptions) (now : ℕ) (s : S.State) (d : D.State)
    (bs : List Backup) (base : Option Snapshot)
    → plan_backup S D o now s d ≡ ok (bs, base)
    → (set : Names) × (sorted_list_backups D d ≡ ok bs) × (choose_base o now set bs ≡ ok base)
unfolding plan_backup
plan_backup-choose_base S D o now s d bs base h =
    let (bs', e, h₁) = bind-eq-ok (sorted_list_backups D d) _ h in
    let (bookmarks, e₁, h₂) = bind-eq-ok (sorted_list_bookmarks S s) _ h₁ in
    let (archives, e₂, h₃) = bind-eq-ok (sorted_list_archives S s) _ h₂ in
    let (base', e₃, h₄) =
      bind-eq-ok (choose_base o now (snapshots_set bookmarks archives) bs') _ h₃ in
    let q = ok-injective h₄ in
    let same : bs' ≡ bs = ap (λ r. r.0) q in
    (
      snapshots_set bookmarks archives,
      e ∙ ap ok same,
      subst (λ l. choose_base o now (snapshots_set bookmarks archives) l ≡ ok base) same
          (e₃ ∙ ap (λ r. ok r.1) q),
    )

-- The new backup, on top of the chosen base or in full.
pub made-IsRestorable :
    (o : BackupOptions) (now : ℕ) (set : Names) (bs : List Backup) (base : Option Snapshot)
    (b : Backup)
    → member (name b) (map name bs) ≡ false
    → IsSound bs
    → choose_base o now set bs ≡ ok base
    → (b.base_snapshot ≡ none) ⊎ (b.base_snapshot ≡ base)
    → IsRestorable (make_index (b ∷ bs)) b
made-IsRestorable o now set bs base b fresh s h (inl e) =
    subst (λ x. (rest : List Backup) × Links (make_index (b ∷ bs)) x rest) (sym e) ([], full)
made-IsRestorable o now set bs base b fresh s h (inr e) =
    subst
      (λ x.
        let c : Backup = record { snapshot = b.snapshot; base_snapshot = x } in
        IsRestorable (make_index (c ∷ bs)) c)
      (sym e) (choose_base-IsRestorable o now set bs base b.snapshot s.names fresh s.restorable h)
