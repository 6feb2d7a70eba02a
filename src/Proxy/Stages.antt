-- ===== src/Proxy/Stages.antt =====
-- How far the session of a proxy is, and steps that move it there.
use uback.Base.{◌≡◌, ◌⊎◌, inl, inr, refl, sym, ap, ◌∙◌, subst, Result, ok, err}
use uback.Base.Commands.{Command, ◌>>=◌, ◌>>◌, pure, go_on}

-- `half_open` has the stream of the calls, `ready` that of the data too; `shut` has its client closed.
pub data Stage : Type 0 where
  no_session started connected half_open ready shut : Stage

module _ {S W : Type 0} (remote : S → W) (stage : S → Stage) where
  -- From a stage the step succeeds, leads to another, and does not touch the other side's world.
  abbrev pub Moves : Command S (Unit {0}) → Stage → Stage → Type 0
  Moves m a b =
      (s : S) → stage s ≡ a → ((m s).1 ≡ ok tt) × (remote (m s).0 ≡ remote s) × (stage (m s).0 ≡ b)

  -- From a stage the step does in the other side's world what the other does there, and gives its result or its
  -- error.
  abbrev pub Answers : {A : Type 0} → Command S A → Command W A → Stage → (Stage → Type 0) → Type 0
  Answers m handler a After =
      (s : S)
      → stage s ≡ a
      → ((m s).1 ≡ (handler (remote s)).1)
        × (remote (m s).0 ≡ (handler (remote s)).0)
        × After (stage (m s).0)

  pub then-Moves :
      (m k : Command S (Unit {0})) {a b c : Stage} → Moves m a b → Moves k b c → Moves (m >> k) a c
  unfolding ◌>>◌ ◌>>=◌ go_on
  then-Moves m k {c = c} hm hk s h =
      let (done, same, at) = hm s h in
      let (done', same', at') = hk (m s).0 at in
      let q : m s ≡ ((m s).0, ok tt) = ap (λ r. ((m s).0, r)) done in
      let e : (m >> k) s ≡ k (m s).0 = ap (go_on (λ _. k)) q in
      (ap (λ r. r.1) e ∙ done', ap (λ r. remote r.0) e ∙ same' ∙ same, ap (λ r. stage r.0) e ∙ at')

  pub then-Answers :
      {A : Type 0} (m : Command S (Unit {0})) (k : Command S A) (handler : Command W A)
      (a b : Stage) (After : Stage → Type 0)
      → Moves m a b
      → Answers k handler b After
      → Answers (m >> k) handler a After
  unfolding ◌>>◌ ◌>>=◌ go_on
  then-Answers m k handler a b After hm hk s h =
      let (done, same, at) = hm s h in
      let (result, world, after) = hk (m s).0 at in
      let q : m s ≡ ((m s).0, ok tt) = ap (λ r. ((m s).0, r)) done in
      let e : (m >> k) s ≡ k (m s).0 = ap (go_on (λ _. k)) q in
      (
        ap (λ r. r.1) e ∙ result ∙ ap (λ w. (handler w).1) same,
        ap (λ r. remote r.0) e ∙ world ∙ ap (λ w. (handler w).0) same,
        subst After (sym (ap (λ r. stage r.0) e)) after,
      )

  -- A call with another step behind it, if it succeeds.
  pub keep-Answers :
      {A : Type 0} (m : Command S A) (c : Command S (Unit {0})) (handler : Command W A)
      (a b d : Stage)
      → Answers m handler a (λ t. t ≡ b)
      → Moves c b d
      → Answers (m >>= λ x. c >> pure x) handler a (λ t. (t ≡ b) ⊎ (t ≡ d))
  unfolding ◌>>◌ ◌>>=◌ go_on pure
  keep-Answers {A} m c handler a b d hm hc s h = go (m s) refl
    where
      go :
          (r : S × Result A)
          → m s ≡ r
          → ((go_on (λ x. c >> pure x) r).1 ≡ (handler (remote s)).1)
            × (remote (go_on (λ x. c >> pure x) r).0 ≡ (handler (remote s)).0)
            × ((stage (go_on (λ x. c >> pure x) r).0 ≡ b)
                ⊎ (stage (go_on (λ x. c >> pure x) r).0 ≡ d))
      go (t, err x) e =
          let (result, world, at) = hm s h in
          (
            sym (ap (λ r. r.1) e) ∙ result,
            sym (ap (λ r. remote r.0) e) ∙ world,
            inl (sym (ap (λ r. stage r.0) e) ∙ at),
          )
      go (t, ok x) e =
          let (result, world, at) = hm s h in
          let (done, same, at') = hc t (sym (ap (λ r. stage r.0) e) ∙ at) in
          let q : c t ≡ ((c t).0, ok tt) = ap (λ r. ((c t).0, r)) done in
          let f : (c >> pure x) t ≡ ((c t).0, ok x) = ap (go_on (λ _. pure x)) q in
          (
            ap (λ r. r.1) f ∙ sym (ap (λ r. r.1) e) ∙ result,
            ap (λ r. remote r.0) f ∙ same ∙ sym (ap (λ r. remote r.0) e) ∙ world,
            inr (ap (λ r. stage r.0) f ∙ at'),
          )
