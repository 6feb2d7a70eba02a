-- ===== src/Retention/Backups/Restorable.antt =====
-- After pruning, whatever is left can still be restored from what is left.
use uback.Base.{
  ◌≡◌, refl, sym, ap, ◌∙◌, subst, inl, inr, Bool, true, not, ◌&&◌, List, [], ◌∷◌, Option, none,
  some, Bytes, arith, map, Dict, lookup, Names, member, distinct, filter, filter-In, In, here,
  there, In-cases, Bool-cases, ok, bind-eq-ok, if◌then◌else◌, equal_iff, equal_refl,
}
use uback.Snapshot.{Snapshot, Backup, name}
use uback.Chain.{make_index}
use uback.Chain.Index.{make_index-source, make_index_self, make_index-filter}
use uback.Chain.Links.{Links, full, link, Links-Linked, Links-base, IsIndex, IsRestorable}
use uback.Retention.{RetentionPolicy, backup_subject}
use uback.Retention.Apply.{apply_retention_policies}
use uback.Retention.Apply.Keeps.{apply_retention_policies-source}
use uback.Retention.Backups.{Chains, retain_chains, select_pruned, get_pruned_backups}
use uback.Retention.Backups.Collect.{IsChain, Collected, collect_chains_lem}
use uback.Retention.Backups.Retain.{retain_chains-In, retain_chains-source}

make_index-IsIndex : (bs : List Backup) → IsIndex (make_index bs)
make_index-IsIndex bs k b e = (make_index-source bs k b e).0

-- A set of names that holds, with a backup, what it is restored from.
record Closed (idx : Dict Backup) (kept : Names) (k : Bytes) : Type 0 where
  backup : Backup
  indexed : lookup k idx ≡ some backup
  rest : List Backup
  links : Links idx backup.base_snapshot rest
  base_kept : (base : Snapshot) → backup.base_snapshot ≡ some base → member base kept ≡ true

module _ (bs : List Backup) (d : distinct (map name bs) ≡ true) (kept : Names) where
  chain-Closed :
      (k : Bytes) (chain : List Backup) (b : Backup)
      → IsChain (make_index bs) bs k chain
      → ((c : Backup) → In c chain → member (name c) kept ≡ true)
      → In b chain
      → Closed (make_index bs) kept (name b)
  chain-Closed k chain b c all m =
      let named = make_index-IsIndex bs in
      let within =
        λ (x : Backup) (i : In x (c.front ∷ c.rest)). all x (subst (In x) (sym c.spelled) i) in
      elim (In-cases (subst (In b) c.spelled m)) [
        | inl e ↦
            subst (λ b. Closed (make_index bs) kept (name b)) (sym e)
              (record {
                backup = c.front;
                indexed = make_index_self bs c.front d c.listed;
                rest = c.rest;
                links = c.links;
                base_kept = λ base q.
                    let (x, i, n) = Links-base base named c.links q in
                    subst (λ k. member k kept ≡ true) n (within x (there i));
              })
        | inr i ↦
            let p = Links-Linked b named c.links i in
            record {
              backup = b;
              indexed = p.indexed;
              rest = p.rest;
              links = p.links;
              base_kept = λ base q.
                  let (x, j, n) = Links-base base named p.links q in
                  subst (λ k. member k kept ≡ true) n (within x (there (p.within x j)));
            }
      ]

  -- Links through the whole index are links through the index of what is kept.
  Links-kept :
      (idx : Dict Backup) {base : Option Snapshot} {rest : List Backup}
      → ((k : Bytes) → member k kept ≡ true → lookup k idx ≡ lookup k (make_index bs))
      → ((k : Bytes) → member k kept ≡ true → Closed (make_index bs) kept k)
      → Links (make_index bs) base rest
      → ((s : Snapshot) → base ≡ some s → member s kept ≡ true)
      → Links idx base rest
  Links-kept idx same closed full k = full
  Links-kept idx same closed (link {base = s} {b = b} e l) k =
      let c = closed s (k s refl) in
      let q : some c.backup ≡ some b = sym c.indexed ∙ e in
      let q' : c.backup ≡ b = ground arith in
      link (same s (k s refl) ∙ e)
        (Links-kept idx same closed l (λ s' e'. c.base_kept s' (ap (λ b. b.base_snapshot) q' ∙ e')))

member-filter :
    (p : Bytes → Bool) (bs : List Backup) (k : Bytes)
    → member k (map name (filter (λ b. p (name b)) bs)) ≡ (p k && member k (map name bs))
unfolding member filter
member-filter p [] k = ground arith
member-filter p (b ∷ bs) k = elim (Bool-cases (p (name b))) [
  | inl kept ↦ rw kept (ground (arith, member-filter p bs k, equal_iff k (name b)))
  | inr dropped ↦ rw dropped (ground (arith, member-filter p bs k, equal_iff k (name b)))
]

pub In-member : (bs : List Backup) (b : Backup) → In b bs → member (name b) (map name bs) ≡ true
unfolding member
In-member [] b m = elim m [ ]
In-member (c ∷ bs) b (here e) = rw e (ground (arith, equal_refl (name c)))
In-member (c ∷ bs) b (there m) = ground (arith, In-member bs b m)

-- The names that the second part of `GetPrunedBackups` keeps, with what each is restored from.
select_pruned-Closed :
    (bs : List Backup) (ps : List RetentionPolicy) (c : Chains) (retained : Names) (k : Bytes)
    → distinct (map name bs) ≡ true
    → Collected (make_index bs) bs c
    → apply_retention_policies backup_subject ps c.subjects ≡ ok retained
    → member k (retain_chains c.chains retained retained) ≡ true
    → Closed (make_index bs) (retain_chains c.chains retained retained) k
select_pruned-Closed bs ps c retained k d col e m =
    elim (retain_chains-source c.chains retained retained k m) [
      | inl front ↦
          let (s, i, n) = apply_retention_policies-source backup_subject ps c.subjects k e front in
          let (chain, q) = col.subjects s i in
          let whole = col.chains (name s) chain q in
          let first = subst (In whole.front) (sym whole.spelled) (here refl) in
          subst (Closed (make_index bs) kept) (whole.named ∙ n) (
            chain-Closed bs d kept (name s) chain whole.front whole
              (λ x j.
                retain_chains-In c.chains retained retained (name s) chain x
                  (subst (λ k. member k retained ≡ true) (sym n) front) q j)
              first)
      | inr (r, chain, b, f, q, i, n) ↦ subst (Closed (make_index bs) kept) n (
          chain-Closed bs d kept r chain b (col.chains r chain q)
            (λ x j. retain_chains-In c.chains retained retained r chain x f q j) i)
    ]
  where
    kept : Names
    kept = retain_chains c.chains retained retained

-- The pruned backups are those whose names are not in some set, and that set is closed.
record Pruned (bs pruned : List Backup) : Type 0 where
  kept : Names
  removed : pruned ≡ filter (λ b. not (member (name b) kept)) bs
  closed : (k : Bytes) → member k kept ≡ true → Closed (make_index bs) kept k

get_pruned_backups-Pruned :
    (bs : List Backup) (p : RetentionPolicy) (ps : List RetentionPolicy) {pruned : List Backup}
    → distinct (map name bs) ≡ true
    → get_pruned_backups bs (p ∷ ps) ≡ ok pruned
    → Pruned bs pruned
unfolding get_pruned_backups select_pruned
get_pruned_backups-Pruned bs p ps d h =
    let (c, e, h₁) = bind-eq-ok _ (select_pruned bs (p ∷ ps)) h in
    let (retained, e₁, h₂) =
      bind-eq-ok (apply_retention_policies backup_subject (p ∷ ps) c.subjects) _ h₁ in
    record {
      kept = retain_chains c.chains retained retained;
      removed = ground arith;
      closed =
          λ k m. select_pruned-Closed bs (p ∷ ps) c retained k d (collect_chains_lem _ _ bs e) e₁ m;
    }

-- What is left of `bs` without the pruned ones.
abbrev pub left_of : List Backup → List Backup → List Backup
left_of bs pruned = filter (λ b. not (member (name b) (map name pruned))) bs

module _ (bs pruned : List Backup) (d : distinct (map name bs) ≡ true) (r : Pruned bs pruned) where
  pruned_names :
      (k : Bytes) → member k (map name pruned) ≡ (not (member k r.kept) && member k (map name bs))
  pruned_names k =
      ap (λ l. member k (map name l)) r.removed ∙ member-filter (λ k. not (member k r.kept)) bs k

  left-kept : (b : Backup) → In b (left_of bs pruned) → In b bs × (member (name b) r.kept ≡ true)
  left-kept b m =
      let (i, h) = filter-In bs (λ b. not (member (name b) (map name pruned))) m in
      (i, ground (arith, pruned_names (name b), In-member bs b i))

  kept-lookup :
      (k : Bytes)
      → member k r.kept ≡ true
      → lookup k (make_index (left_of bs pruned)) ≡ lookup k (make_index bs)
  kept-lookup k h =
      let stays : not (member k (map name pruned)) ≡ true = ground (arith, pruned_names k) in
      make_index-filter (λ k. not (member k (map name pruned))) bs k
      ∙ ap (λ t. if t then lookup k (make_index bs) else none) stays

  left-IsRestorable :
      (b : Backup) → In b (left_of bs pruned) → IsRestorable (make_index (left_of bs pruned)) b
  left-IsRestorable b m =
      let (i, k) = left-kept b m in
      let c = r.closed (name b) k in
      let q : some c.backup ≡ some b = sym c.indexed ∙ make_index_self bs b d i in
      let q' : c.backup ≡ b = ground arith in
      subst (IsRestorable (make_index (left_of bs pruned))) q'
        (c.rest, Links-kept bs d r.kept _ kept-lookup r.closed c.links c.base_kept)

-- Whenever pruning by at least one policy succeeds on backups whose names are distinct, every backup
-- that is left can be restored from backups that are left.
pub get_pruned_backups-IsRestorable :
    (bs : List Backup) (p : RetentionPolicy) (ps : List RetentionPolicy) (pruned : List Backup)
    (b : Backup)
    → distinct (map name bs) ≡ true
    → get_pruned_backups bs (p ∷ ps) ≡ ok pruned
    → In b (left_of bs pruned)
    → IsRestorable (make_index (left_of bs pruned)) b
get_pruned_backups-IsRestorable bs p ps pruned b d h =
    left-IsRestorable bs pruned d (get_pruned_backups-Pruned bs p ps d h) b
