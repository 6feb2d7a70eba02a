-- ===== src/History/Restorable.antt =====
-- The backups of a destination stay restorable.
use uback.Base.{
  ◌≡◌, refl, sym, ap, ◌∙◌, subst, true, false, Option, Names, Dict, insert, List, ◌∷◌, Bytes, map,
  member, is_empty, if◌then◌else◌, Bool-cases, inl, inr, Result, ok,
}
use uback.Base.Commands.{◌>>=◌, ◌>>◌, pure, ask, bind-after, then-after}
use uback.Snapshot.{Snapshot, Backup, name}
use uback.Snapshot.Filename.Shape.{is_valid}
use uback.Interfaces.{Stream, Source, Destination}
use uback.Sorting.{sort_backups}
use uback.Sorting.Reordered.{Reordered, member-Reordered, back, cons, trans}
use uback.Sorting.Descending.{sort_backups-Reordered}
use uback.Chain.{make_index}
use uback.Chain.Links.{IsRestorable}
use uback.Chain.Sound.{IsSound, IsSound-Reordered, IsSound-cons}
use uback.Backup.{choose_base}
use uback.Backup.Run.{
  World, Settings, run_backup, prune_both, update_state, record_state, write_state, create, send,
}
use uback.Backup.Run.Records.{create-world}
use uback.History.{
  backs_up, prunes_backups, prunes_snapshots, stays, goes, KeepsBackups, UsesBase, IsFresh, IsNew,
  Step, Reaches,
}
use uback.History.Kept.{
  prune_backups-IsSound, cmd_prune_backups-IsSound, plan_backup-choose_base, made-IsRestorable,
  ok-injective, sorted_list_backups-backups,
}

module _ (S : Source) (D : Destination) (K : KeepsBackups D) where
  abbrev HasSound : World S D → Type 0
  HasSound w = IsSound (K.backups w.destination)

  record_state-destination :
      (o : Settings) (b : Backup) (w : World S D)
      → (record_state S D o b w).0.destination ≡ w.destination
  unfolding record_state write_state ask pure
  record_state-destination o b w =
      bind-after (λ v. v.destination ≡ w.destination) _ _ w
        (λ u e q. ap (λ r. r.0.destination) (sym q))
        (λ u old q.
          let here_ = ap (λ r. r.0.destination) (sym q) in
          then-after (λ v. v.destination ≡ w.destination)
            (write_state S D o (insert o.destination_id b.snapshot old))
            (pure (insert o.destination_id b.snapshot old)) u
            (λ v e r. ap (λ r. r.0.destination) (sym r) ∙ here_)
            (λ v a r. ap (λ r. r.0.destination) (sym r) ∙ here_))

  update_state-destination :
      (o : Settings) (b : Backup) (w : World S D)
      → (update_state S D o b w).0.destination ≡ w.destination
  unfolding update_state pure
  update_state-destination o b w = elim (Bool-cases (is_empty o.options.state_file)) [
    | inl e ↦ rw e refl
    | inr e ↦ rw e (record_state-destination o b w)
  ]

  prune_both-HasSound :
      (o : Settings) (state : Dict Bytes) (bs : List Backup) (w : World S D)
      → Reordered (K.backups w.destination) bs
      → HasSound w
      → HasSound ((if o.no_prune then pure tt else prune_both S D o state bs) w).0
  unfolding prune_both pure
  prune_both-HasSound o state bs w r s = elim (Bool-cases o.no_prune) [
    | inl e ↦ rw e s
    | inr e ↦ rw e (prune_backups-IsSound D K bs o.destination_policies w.destination r s)
  ]

  -- Sending the backup that was made from the plan.
  send-HasSound :
      (bs : List Backup) (b : Backup) (stream : Stream) (w : World S D)
      → Reordered (K.backups w.destination) bs
      → is_valid b ≡ true
      → member (name b) (map name (K.backups w.destination)) ≡ false
      → IsRestorable (make_index (b ∷ bs)) b
      → (D.send_backup b stream w.destination).1 ≡ ok tt
      → HasSound w
      → IsSound (K.backups (D.send_backup b stream w.destination).0)
        × Reordered (K.backups (D.send_backup b stream w.destination).0) (b ∷ bs)
  send-HasSound bs b stream w r valid fresh restorable h s =
      let sent = K.backups_sent b stream w.destination valid fresh h in
      let there_ = trans (cons (back r)) sent in
      (
        IsSound-Reordered (b ∷ bs) _ there_ (
            IsSound-cons b bs (sym (member-Reordered name (name b) r) ∙ fresh) restorable
              (IsSound-Reordered (K.backups w.destination) bs r s)),
        back there_,
      )

  -- What a run does behind the sending.
  finish-HasSound :
      (o : Settings) (b : Backup) (bs : List Backup) (w : World S D)
      → Reordered (K.backups w.destination) (b ∷ bs)
      → HasSound w
      → HasSound
          ((update_state S D o b >>= λ state.
              (if o.no_prune then pure tt else prune_both S D o state (b ∷ bs)) >> pure b)
            w).0
  unfolding pure
  finish-HasSound o b bs w r s =
      bind-after HasSound (update_state S D o b) _ w
        (λ u e q.
          subst (λ d. IsSound (K.backups d))
            (sym (update_state-destination o b w) ∙ ap (λ r. r.0.destination) q) s)
        (λ u state q.
          let same = sym (update_state-destination o b w) ∙ ap (λ r. r.0.destination) q in
          let pruned =
            prune_both-HasSound o state (b ∷ bs) u
              (subst (λ d. Reordered (K.backups d) (b ∷ bs)) same r)
              (subst (λ d. IsSound (K.backups d)) same s) in
          then-after HasSound (if o.no_prune then pure tt else prune_both S D o state (b ∷ bs))
            (pure b) u (λ v e h. subst HasSound (ap (λ r. r.0) h) pruned)
            (λ v a h. subst HasSound (ap (λ r. r.0) h) pruned))

  sent-HasSound :
      (o : Settings) (b : Backup) (stream : Stream) (bs : List Backup) (w : World S D)
      → Reordered (K.backups w.destination) bs
      → is_valid b ≡ true
      → member (name b) (map name (K.backups w.destination)) ≡ false
      → IsRestorable (make_index (b ∷ bs)) b
      → HasSound w
      → HasSound
          ((send S D b stream
              >> (update_state S D o b >>= λ state.
                  (if o.no_prune then pure tt else prune_both S D o state (b ∷ bs)) >> pure b))
            w).0
  unfolding send
  sent-HasSound o b stream bs w r valid fresh restorable s =
      then-after HasSound (send S D b stream) _ w
        (λ u e q. subst HasSound (ap (λ r. r.0) q) (
          subst IsSound (sym (K.backups_failed b stream w.destination e valid (ap (λ r. r.1) q)))
            s))
        (λ u done q.
          let (sound, same) =
            send-HasSound bs b stream w r valid fresh restorable (ap (λ r. r.1) q) s in
          finish-HasSound o b bs u
            (subst (λ d. Reordered (K.backups d) (b ∷ bs)) (ap (λ r. r.0.destination) q) same)
            (subst (λ d. IsSound (K.backups d)) (ap (λ r. r.0.destination) q) sound))

  create-destination :
      (base : Option Snapshot) (w : World S D) {v : World S D} {r : Result (Backup × Stream)}
      → create S D base w ≡ (v, r)
      → w.destination ≡ v.destination
  unfolding create
  create-destination base w h = ap (λ r. r.0.destination) h

  created-HasSound :
      UsesBase S
      → (o : Settings) (set : Names) (bs : List Backup) (base : Option Snapshot) (w : World S D)
      → Reordered (K.backups w.destination) bs
      → choose_base o.options o.now set bs ≡ ok base
      → IsNew S D K base w
      → HasSound w
      → HasSound
          ((create S D base >>= λ made.
              send S D made.0 (o.pack made.1)
              >> (update_state S D o made.0 >>= λ state.
                  (if o.no_prune then pure tt else prune_both S D o state (made.0 ∷ bs))
                  >> pure made.0))
            w).0
  created-HasSound uses o set bs base w r choice fresh s =
      bind-after HasSound (create S D base) _ w
        (λ u e q. subst (λ d. IsSound (K.backups d)) (create-destination base w q) s)
        (λ u made q.
          let same = create-destination base w q in
          let made_ = (create-world S D o base w q).0 in
          let (valid, new) = fresh u.source made.0 made.1 made_ in
          let new' = sym (member-Reordered name (name made.0) r) ∙ new in
          sent-HasSound o made.0 (o.pack made.1) bs u
            (subst (λ d. Reordered (K.backups d) bs) same r) valid
            (subst (λ d. member (name made.0) (map name (K.backups d)) ≡ false) same new)
            (made-IsRestorable o.options o.now set bs base made.0 new'
              (IsSound-Reordered (K.backups w.destination) bs r s) choice
              (uses base w.source u.source made.0 made.1 made_))
            (subst (λ d. IsSound (K.backups d)) same s))

  run_backup-HasSound :
      UsesBase S
      → (o : Settings) (w : World S D) → IsFresh S D K o w
      → HasSound w
      → HasSound (run_backup S D o w).0
  unfolding run_backup ask
  run_backup-HasSound uses o w fresh s =
      bind-after HasSound _ _ w (λ u e q. subst HasSound (ap (λ r. r.0) q) s)
        (λ u chosen q.
          let (set, sorted, choice) =
            plan_backup-choose_base S D o.options o.now w.source w.destination chosen.0 chosen.1
              (ap (λ r. r.1) q) in
          let listed : sort_backups (K.backups w.destination) ≡ chosen.0 =
            ok-injective (sym (sorted_list_backups-backups D K w.destination) ∙ sorted) in
          let r : Reordered (K.backups w.destination) chosen.0 =
            subst (Reordered (K.backups w.destination)) listed
              (back (sort_backups-Reordered (K.backups w.destination))) in
          let here_ = ap (λ r. r.0) q in
          created-HasSound uses o set chosen.0 chosen.1 u
            (subst (λ u. Reordered (K.backups u.destination) chosen.0) here_ r) choice
            (subst (IsNew S D K chosen.1) here_ (fresh chosen.0 chosen.1 (ap (λ r. r.1) q)))
            (subst HasSound here_ s))

  step-HasSound : UsesBase S → (w v : World S D) → Step S D K w v → HasSound w → HasSound v
  step-HasSound uses _ _ (backs_up o w fresh) s = run_backup-HasSound uses o w fresh s
  step-HasSound uses _ _ (prunes_backups dry_run policies w) s =
      cmd_prune_backups-IsSound D K dry_run policies w.destination s
  step-HasSound uses _ _ (prunes_snapshots dry_run policies file w) s = s

  -- For a destination that lists each backup whose sending succeeds, with its base, and from which a backup that is
  -- there can always be removed: whatever commands are run, and whether they succeed or not, if the names of its
  -- backups differ and each of these can be restored, this stays so. Each run has to make a new, valid name, on top
  -- of the base that it is asked to or in full.
  pub Reaches-IsSound :
      UsesBase S
      → (w v : World S D) → Reaches S D K w v
      → IsSound (K.backups w.destination)
      → IsSound (K.backups v.destination)
  Reaches-IsSound uses w _ stays s = s
  Reaches-IsSound uses w _ (goes {v} {u} r step) s =
      step-HasSound uses v u step (Reaches-IsSound uses w v r s)
