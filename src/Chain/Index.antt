-- ===== src/Chain/Index.antt =====
-- The index of a list of backups by name.
use uback.Base.{
  suc, ◌+◌, ◌≡◌, refl, sym, ap, ◌∙◌, Bool, true, false, none, some, List, [], ◌∷◌, arith, Bytes,
  Dict, lookup, insert, lookup-insert, In, here, there, member, distinct, map, inl, inr, ◌⊎◌,
  filter, equal, equal_iff, equal_refl, if◌then◌else◌, Bool-cases, length, ◌≤◌,
}
use uback.Snapshot.{Backup, name}
use uback.Chain.{index_onto, make_index}

index_onto-source :
    (bs : List Backup) (idx : Dict Backup) (k : Bytes) (b : Backup)
    → lookup k (index_onto idx bs) ≡ some b
    → ((name b ≡ k) × In b bs) ⊎ (lookup k idx ≡ some b)
unfolding index_onto
index_onto-source [] idx k b h = inr h
index_onto-source (c ∷ bs) idx k b h = elim (index_onto-source bs (insert (name c) c idx) k b h) [
  | inl (e, m) ↦ inl (e, there m)
  | inr e ↦ elim (Bool-cases (equal k (name c))) [
    | inl same ↦
        let q : some c ≡ some b = rw (lookup-insert, same) at e in
        let q' : c ≡ b = ground arith in
        inl (ap name (sym q') ∙ sym ((equal_iff k (name c)).0 same), here (sym q'))
    | inr other ↦ inr (rw (lookup-insert, other) at e)
  ]
]

-- What the index holds under a name is a backup of the list with that name.
pub make_index-source :
    (bs : List Backup) (k : Bytes) (b : Backup)
    → lookup k (make_index bs) ≡ some b
    → (name b ≡ k) × In b bs
unfolding make_index lookup
make_index-source bs k b h = elim (index_onto-source bs [] k b h) [ inl p ↦ p | inr e ↦ cc ]

index_onto-other :
    (bs : List Backup) (idx : Dict Backup) (k : Bytes)
    → member k (map name bs) ≡ false
    → lookup k (index_onto idx bs) ≡ lookup k idx
unfolding index_onto member
index_onto-other [] idx k h = refl
index_onto-other (c ∷ bs) idx k h =
    let other : equal k (name c) ≡ false = ground arith in
    index_onto-other bs (insert (name c) c idx) k (ground arith) ∙ rw (lookup-insert, other)

index_onto_self :
    (bs : List Backup) (idx : Dict Backup) (b : Backup)
    → distinct (map name bs) ≡ true
    → In b bs
    → lookup (name b) (index_onto idx bs) ≡ some b
unfolding index_onto distinct
index_onto_self [] idx b d m = elim m [ ]
index_onto_self (c ∷ bs) idx b d (here e) = rw e (
    index_onto-other bs (insert (name c) c idx) (name c) (ground arith)
    ∙ rw (lookup-insert, equal_refl (name c)))
index_onto_self (c ∷ bs) idx b d (there m) =
    index_onto_self bs (insert (name c) c idx) b (ground arith) m

-- If no name stands twice, each backup is found under its name.
pub make_index_self :
    (bs : List Backup) (b : Backup)
    → distinct (map name bs) ≡ true
    → In b bs
    → lookup (name b) (make_index bs) ≡ some b
unfolding make_index
make_index_self bs = index_onto_self bs []

index_onto-filter :
    (p : Bytes → Bool) (bs : List Backup) (idx idx' : Dict Backup)
    → ((k : Bytes) → lookup k idx' ≡ (if p k then lookup k idx else none))
    → (k : Bytes)
    → lookup k (index_onto idx' (filter (λ b. p (name b)) bs))
      ≡ (if p k then lookup k (index_onto idx bs) else none)
unfolding index_onto filter
index_onto-filter p [] idx idx' h k = h k
index_onto-filter p (c ∷ bs) idx idx' h k = elim (Bool-cases (p (name c))) [
  | inl kept ↦ rw kept (
      index_onto-filter p bs (insert (name c) c idx) (insert (name c) c idx')
        (λ j. rw lookup-insert (rw lookup-insert (ground (arith, h j, equal_iff j (name c))))) k)
  | inr dropped ↦ rw dropped (
      index_onto-filter p bs (insert (name c) c idx) idx'
        (λ j. rw lookup-insert (ground (arith, h j, equal_iff j (name c)))) k)
]

-- Dropping backups by their names drops those names from the index.
pub make_index-filter :
    (p : Bytes → Bool) (bs : List Backup) (k : Bytes)
    → lookup k (make_index (filter (λ b. p (name b)) bs))
      ≡ (if p k then lookup k (make_index bs) else none)
unfolding make_index lookup
make_index-filter p bs k = index_onto-filter p bs [] [] (λ j. ground arith) k

length-insert :
    (k : Bytes) (b : Backup) (idx : Dict Backup) → length (insert k b idx) ≤ suc (length idx)
unfolding insert
length-insert k b [] = omega arith
length-insert k b ((j, c) ∷ idx) = ground (arith, length-insert k b idx)

length-index_onto :
    (bs : List Backup) (idx : Dict Backup) → length (index_onto idx bs) ≤ length bs + length idx
unfolding index_onto
length-index_onto [] idx = omega arith
length-index_onto (b ∷ bs) idx =
    omega (arith, length-index_onto bs (insert (name b) b idx), length-insert (name b) b idx)

pub length-index : (bs : List Backup) → length (make_index bs) ≤ length bs
unfolding make_index
length-index bs = omega (arith, length-index_onto bs [])
