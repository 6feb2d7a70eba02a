-- ===== src/Chain/Sound.antt =====
-- A list of backups of which each can be restored, and what leaves it so.
use uback.Base.{
  ◌≡◌, sym, ◌∙◌, subst, Bool, true, false, Option, some, List, [], ◌∷◌, Bytes, Dict, lookup, arith,
  map, In, there, member, distinct, filter, In-cases, inl, inr,
}
use uback.Snapshot.{Snapshot, Backup, name, snapshot_name}
use uback.Sorting.Reordered.{Reordered, back, In-Reordered, distinct-Reordered}
use uback.Chain.{make_index}
use uback.Chain.Index.{make_index-source, make_index_self}
use uback.Chain.Links.{Links, full, link, IsRestorable}

-- No name stands twice, and every backup can be restored from those of the list.
pub record IsSound (bs : List Backup) : Type 0 where
  pub names : distinct (map name bs) ≡ true
  pub restorable : (b : Backup) → In b bs → IsRestorable (make_index bs) b

pub Links-more :
    (idx idx' : Dict Backup) {base : Option Snapshot} {rest : List Backup}
    → ((k : Bytes) (b : Backup) → lookup k idx ≡ some b → lookup k idx' ≡ some b)
    → Links idx base rest
    → Links idx' base rest
Links-more idx idx' more full = full
Links-more idx idx' more (link {base = s} {b = b} e l) =
    link (more (snapshot_name s) b e) (Links-more idx idx' more l)

-- What can be restored from some backups can be restored from more.
pub IsRestorable-more :
    (bs cs : List Backup) (b : Backup)
    → distinct (map name cs) ≡ true
    → ((c : Backup) → In c bs → In c cs)
    → IsRestorable (make_index bs) b
    → IsRestorable (make_index cs) b
IsRestorable-more bs cs b d into (rest, l) = (
  rest,
  Links-more (make_index bs) (make_index cs)
      (λ k c e.
        let (n, i) = make_index-source bs k c e in
        subst (λ k. lookup k (make_index cs) ≡ some c) n (make_index_self cs c d (into c i)))
      l,
)

-- The same backups in another order are sound.
pub IsSound-along :
    (bs cs : List Backup)
    → distinct (map name cs) ≡ true
    → ((c : Backup) → In c bs → In c cs)
    → ((c : Backup) → In c cs → In c bs)
    → IsSound bs
    → IsSound cs
IsSound-along bs cs d into from s = record {
  names = d;
  restorable = λ b i. IsRestorable-more bs cs b d into (s.restorable b (from b i));
}

pub IsSound-Reordered : (bs cs : List Backup) → Reordered bs cs → IsSound bs → IsSound cs
IsSound-Reordered bs cs r s =
    IsSound-along bs cs (sym (distinct-Reordered name r) ∙ s.names) (λ c. In-Reordered r)
      (λ c. In-Reordered (back r)) s

-- A new name, and a backup that can be restored with it.
pub IsSound-cons :
    (n : Backup) (bs : List Backup)
    → member (name n) (map name bs) ≡ false
    → IsRestorable (make_index (n ∷ bs)) n
    → IsSound bs
    → IsSound (n ∷ bs)
unfolding distinct
IsSound-cons n bs fresh r s =
    let d : distinct (map name (n ∷ bs)) ≡ true = ground (arith, s.names) in
    record {
      names = d;
      restorable = λ b i. elim (In-cases i) [
        | inl e ↦ subst (IsRestorable (make_index (n ∷ bs))) (sym e) r
        | inr i ↦ IsRestorable-more bs (n ∷ bs) b d (λ c. there) (s.restorable b i)
      ];
    }

member-filter_fresh :
    (p : Backup → Bool) (bs : List Backup) (k : Bytes)
    → member k (map name bs) ≡ false
    → member k (map name (filter p bs)) ≡ false
unfolding member filter
member-filter_fresh p [] k h = h
member-filter_fresh p (b ∷ bs) k h = ground (arith, member-filter_fresh p bs k)

pub distinct-filter :
    (p : Backup → Bool) (bs : List Backup)
    → distinct (map name bs) ≡ true
    → distinct (map name (filter p bs)) ≡ true
unfolding distinct filter
distinct-filter p [] h = h
distinct-filter p (b ∷ bs) h =
    ground (arith, distinct-filter p bs, member-filter_fresh p bs (name b))
