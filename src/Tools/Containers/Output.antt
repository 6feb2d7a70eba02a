-- ===== src/Tools/Containers/Output.antt =====
-- What `uback container create` and `extract` write.
use uback.Base.{ℕ, ◌≡◌, ◌≢◌, ap, subst, Bool, false, [], ◌∷◌, Bytes, Result, ok, err, Error, arith}
use uback.Base.Commands.{pure, bind-eq-ok, then-eq-ok, ask-eq-ok}
use uback.Options.{Packages}
use uback.Options.Keys.{KeyFiles}
use uback.Container.{Codec}
use uback.Tools.{Terminal}
use uback.Tools.Containers.{opened_output, behind_header, cmd_create}

module _ {Identity Recipient : Type 0} (T : Terminal) (Z : Codec Identity Recipient) (P : Packages)
    (fuel : ℕ) (K : KeyFiles Identity Recipient) (file key : Bytes) where
  opened_output-named :
      (input output : Bytes) (w : T.State) {v : T.State} {writer : Bool}
      → opened_output T (input ∷ output ∷ []) w ≡ (v, ok writer)
      → writer ≡ false
  unfolding pure
  opened_output-named input output w h =
      let (u, a, e, q) = then-eq-ok (T.create_file output) (pure false) w h in
      let n : Result.ok false ≡ ok _ = ap (λ r. r.1) q in ground arith

  -- With an output file, `uback container create` never succeeds.
  pub cmd_create-fails :
      (typ input output : Bytes) (w : T.State)
      → (cmd_create T Z P fuel K file key typ (input ∷ output ∷ []) w).1 ≢ ok tt
  unfolding cmd_create
  cmd_create-fails typ input output w h =
      let r = cmd_create T Z P fuel K file key typ (input ∷ output ∷ []) w in
      let q : r ≡ (r.0, ok tt) = ap (λ x. (r.0, x)) h in
      let (w₁, stream, e₁, h₁) = bind-eq-ok _ _ w q in
      let (w₂, writer, e₂, h₂) = bind-eq-ok _ _ w₁ h₁ in
      let (w₃, recipients, e₃, h₃) = bind-eq-ok _ _ w₂ h₂ in
      let (w₄, done, e₄, h₄) = then-eq-ok _ _ w₃ h₃ in
      let n = opened_output-named input output w₁ e₂ in
      let e = subst (λ t. behind_header T Z P fuel K file key t w₃ ≡ (w₄, ok done)) n e₄ in
      let c = (ask-eq-ok (λ w. err Error.panic) w₃ e).1 in cc
