-- ===== src/Sources/Tar/Adding.antt =====
-- What making a backup with a tar source does to its snapshot files.
use uback.Base.{
  ◌≡◌, refl, ap, ◌∙◌, subst, true, false, Bool-cases, inl, inr, Option, none, some, [], ◌∷◌, Bytes,
  equal, equal_iff, has_prefix, is_empty, member, In, if◌then◌else◌, Result, ok, err, arith, ◌||◌,
}
use uback.Base.Commands.{ask, bind-after, then-after, bind-eq-ok}
use uback.Snapshot.{Snapshot, Backup}
use uback.Base.Matcher as Matcher
use uback.Snapshot.Filename.{is_digit, is_snapshot_name, match_snapshot, match_digits}
use uback.Destinations.Fs.Naming.{first_digit}
use uback.Interfaces.{Stream}
use uback.System.{
  Entry, System, Failure, Outcome, not_started, finished, copy_file, wrap_source_command,
  failure_of, wrapped,
}
use uback.Sources.{is_hidden, listed_snapshots}
use uback.Sources.Tar.{
  Tar, temporary, is_warning, keep_snapshot, finalize, prepare_base, base_copied, create_words,
  create_of, create_backup, tar_source,
}
use uback.Sources.Tar.Keeping.{
  HoldsEntries, listed-In, In-listed, or-false_right, tar_source-KeepsOthers,
}
use uback.History.Tracked.{AddsSnapshot}

-- Writing files and running tar leave the entries of the directory that are not temporary, and so does putting
-- a snapshot file in place, after which it is there.
pub record AddsEntries (O : System) (t : Tar) (H : HoldsEntries O t.snapshots_path) : Type 0 where
  pub entries-create :
      (s : O.State) (name : Bytes) (e : Entry)
      → In e (H.entries s)
      → equal e.0 name ≡ false
      → In e (H.entries (O.create (O.join t.snapshots_path name) s).0)
  pub entries-copy :
      (s : O.State) (path : Bytes) (stream : Stream) (e : Entry)
      → In e (H.entries s)
      → In e (H.entries (O.copy path stream s).0)
  pub entries-execute :
      (s : O.State) (new : Snapshot) (e : Entry)
      → In e (H.entries s)
      → equal e.0 (temporary new) ≡ false
      → In e (H.entries (O.execute (create_words O t new) none none s).0)
  pub entries-rename :
      (s : O.State) (old new : Bytes) (e : Entry)
      → In e (H.entries s)
      → equal e.0 old ≡ false
      → In e (H.entries (O.rename (O.join t.snapshots_path old) (O.join t.snapshots_path new) s).0)
  pub renamed :
      (s : O.State) (new : Snapshot)
      → (O.rename (O.join t.snapshots_path (temporary new)) (O.join t.snapshots_path new) s).1
        ≡ ok tt
      → In
          (new, false)
          (H.entries
            (O.rename (O.join t.snapshots_path (temporary new)) (O.join t.snapshots_path new) s).0)

-- A name that is not hidden is not temporary.
not_temporary : (n new : Bytes) → is_hidden n ≡ false → equal n (temporary new) ≡ false
unfolding has_prefix
not_temporary n new shown = elim (Bool-cases (equal n (temporary new))) [
  | inl same ↦
      let q = (equal_iff n (temporary new)).0 same in
      let hidden = subst (λ n. is_hidden n ≡ false) q shown in ground arith
  | inr other ↦ other
]

-- A snapshot's name begins with a digit.
snapshot_is_shown : (s : Snapshot) → is_snapshot_name s ≡ true → is_hidden s ≡ false
unfolding is_snapshot_name match_snapshot match_digits Matcher.◌>>=◌ has_prefix is_digit
snapshot_is_shown [] h = ground arith
snapshot_is_shown (c ∷ s) h = ground (arith, first_digit c s h)

ok-injective : {A : Type 0} {a b : A} → Result.ok a ≡ ok b → a ≡ b
ok-injective h = ground arith

module _ (O : System) (t : Tar) (H : HoldsEntries O t.snapshots_path) (A : AddsEntries O t H)
    (named : is_empty t.snapshots_path ≡ false) where
  module _ (e : Entry) (shown : is_hidden e.0 ≡ false) where
    abbrev Holds : O.State → Type 0
    Holds s = In e (H.entries s)

    copy_file-Holds :
        (new : Snapshot) (src : Bytes) (s : O.State)
        → Holds s
        → Holds (copy_file O (O.join t.snapshots_path (temporary new)) src s).0
    unfolding copy_file ask
    copy_file-Holds new src s i =
        bind-after Holds _ _ s (λ u x q. subst Holds (ap (λ r. r.0) q) i)
          (λ u stream q.
            let j = subst Holds (ap (λ r. r.0) q) i in
            let made = A.entries-create u (temporary new) e j (not_temporary e.0 new shown) in
            then-after Holds (O.create (O.join t.snapshots_path (temporary new))) _ u
              (λ v x r. subst Holds (ap (λ r. r.0) r) made)
              (λ v done r. A.entries-copy v _ stream e (subst Holds (ap (λ r. r.0) r) made)))

    base_copied-Holds :
        (new base : Snapshot) (r : O.State × Result (Unit {0}))
        → Holds r.0
        → Holds (base_copied O t new base r).0
    base_copied-Holds new base (s, ok done) i = i
    base_copied-Holds new base (s, err x) i =
        H.entries-remove s (temporary new) e i (not_temporary e.0 new shown)

    prepare_base-Holds :
        (new : Snapshot) (base : Option Snapshot) (s : O.State)
        → Holds s
        → Holds (prepare_base O t new base s).0
    unfolding prepare_base
    prepare_base-Holds new none s i = i
    prepare_base-Holds new (some base) s i =
        base_copied-Holds new base _ (copy_file-Holds new _ s i)

    keep_snapshot-Holds :
        (new : Snapshot) (s : O.State) → Holds s → Holds (keep_snapshot O t new s).0
    keep_snapshot-Holds new s i =
        rw named (A.entries-rename s (temporary new) new e i (not_temporary e.0 new shown))

    finalize-Holds :
        (new : Snapshot) (failure : Option Failure) (s : O.State)
        → Holds s
        → Holds (finalize O t new failure s).0
    unfolding finalize
    finalize-Holds new none s i = keep_snapshot-Holds new s i
    finalize-Holds new (some f) s i = elim (Bool-cases (is_warning O t f)) [
      | inl q ↦ rw q (keep_snapshot-Holds new s i)
      | inr q ↦
          rw q (rw named (H.entries-remove s (temporary new) e i (not_temporary e.0 new shown)))
    ]

    wrapped-Holds :
        (b : Backup) (new : Snapshot) (r : O.State × Outcome)
        → Holds r.0
        → Holds (wrapped O b (finalize O t new) r).0
    wrapped-Holds b new (s, not_started x) i = i
    wrapped-Holds b new (s, finished output failure) i = finalize-Holds new failure s i

    create_backup-Holds :
        (base : Option Snapshot) (s : O.State) → Holds s → Holds (create_backup O t base s).0
    unfolding create_backup create_of wrap_source_command
    create_backup-Holds base s i =
        let new = O.stamp s in
        bind-after Holds (prepare_base O t new (if is_empty t.snapshots_path then none else base)) _
          s (λ u x q. subst Holds (ap (λ r. r.0) q) (prepare_base-Holds new _ s i))
          (λ u found q.
            wrapped-Holds (record { snapshot = new; base_snapshot = found }) new
              (O.execute (create_words O t new) none none u)
              (A.entries-execute u new e
                (subst Holds (ap (λ r. r.0) q) (prepare_base-Holds new _ s i))
                (not_temporary e.0 new shown)))

  finalize-In :
      (new : Snapshot) (failure : Option Failure) (s : O.State)
      → (finalize O t new failure s).1 ≡ ok tt
      → In (new, false) (H.entries (finalize O t new failure s).0)
  unfolding finalize
  finalize-In new none s h = let h' = rw named at h in rw named (A.renamed s new h')
  finalize-In new (some f) s h = elim (Bool-cases (is_warning O t f)) [
    | inl q ↦ let h' = rw (q, named) at h in rw (q, named) (A.renamed s new h')
    | inr q ↦ let h' = rw q at h in ground arith
  ]

  no_failure : (r : Result (Unit {0})) → failure_of r ≡ none → r ≡ ok tt
  no_failure (ok done) h = refl
  no_failure (err x) h = ground arith

  wrapped-In :
      (b b' : Backup) (stream : Stream) (new : Snapshot) (r : O.State × Outcome) (s' : O.State)
      → wrapped O b (finalize O t new) r ≡ (s', ok (b', stream))
      → stream.failure ≡ none
      → In (new, false) (H.entries s') × (b ≡ b')
  wrapped-In b b' stream new (s, not_started x) s' h whole = cc
  wrapped-In b b' stream new (s, finished output failure) s' h whole =
      let made = ap (λ r. r.1) h in
      let q : (b, record { content = output; failure = failure_of (finalize O t new failure s).1 })
          ≡ (b', stream) =
        ok-injective made in
      let done = no_failure _ (ap (λ p. p.1.failure) q ∙ whole) in
      (
        subst (λ s. In (new, false) (H.entries s)) (ap (λ r. r.0) h)
            (finalize-In new failure s done),
        ap (λ p. p.0) q,
      )

  create_backup-In :
      (base : Option Snapshot) (s s' : O.State) (b : Backup) (stream : Stream)
      → create_backup O t base s ≡ (s', ok (b, stream))
      → stream.failure ≡ none
      → In (O.stamp s, false) (H.entries s') × (O.stamp s ≡ b.snapshot)
  unfolding create_backup create_of wrap_source_command
  create_backup-In base s s' b stream h whole =
      let (u, found, e, made) =
        bind-eq-ok (prepare_base O t (O.stamp s) (if is_empty t.snapshots_path then none else base))
          _ s h in
      let (i, q) =
        wrapped-In (record { snapshot = O.stamp s; base_snapshot = found }) b stream (O.stamp s)
          (O.execute (create_words O t (O.stamp s)) none none u) s' made whole in
      (i, ap (λ b. b.snapshot) q)

  -- A tar source with a directory of snapshot files makes its backups as the histories ask it to.
  pub tar_source-AddsSnapshot :
      ((s : O.State) → is_snapshot_name (O.stamp s) ≡ true)
      → AddsSnapshot (tar_source O t) (tar_source-KeepsOthers O t H named)
  unfolding tar_source tar_source-KeepsOthers
  tar_source-AddsSnapshot stamped = record {
    kept = λ base s k h.
        let (i, shown, valid) = listed-In (H.entries s) k (or-false_right _ h) in
        rw (In-listed _ k (create_backup-Holds (k, false) shown base s i) shown valid) refl;
    added = λ base s s' b stream h whole.
        let (i, q) = create_backup-In base s s' b stream h whole in
        let valid = stamped s in
        let listed = In-listed (H.entries s') (O.stamp s) i (snapshot_is_shown _ valid) valid in
        subst (λ k. (member k (listed_snapshots false (H.entries s')) || false) ≡ true) q
          (rw listed refl);
  }
