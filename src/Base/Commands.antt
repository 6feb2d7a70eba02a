-- ===== src/Base/Commands.antt =====
-- A step of a command changes the world, and gives a value or the error that stops the command
-- (`logrus.Fatal`, or an early return).
use uback.Base.Errors.{Result, ok, err, Error}
use mathlib.Core.Path.{◌≡◌, refl, ap}

abbrev pub Command {ℓ} : Type ℓ → Type 0 → Type ℓ
Command W A = W → W × Result A

infixl 5 ◌>>=◌ ◌>>◌
unfoldable pub go_on {ℓ} :
    {W : Type ℓ} {A B : Type 0} → (A → Command W B) → W × Result A → W × Result B
go_on f (v, ok a) = f a v
go_on f (v, err e) = (v, err e)

unfoldable pub ◌>>=◌ {ℓ} :
    {W : Type ℓ} {A B : Type 0} → Command W A → (A → Command W B) → Command W B
unfolding go_on
◌>>=◌ m f w = go_on f (m w)

unfoldable pub ◌>>◌ {ℓ} : {W : Type ℓ} {A B : Type 0} → Command W A → Command W B → Command W B
unfolding ◌>>=◌
m >> k = m >>= λ _. k

unfoldable pub pure {ℓ} : {W : Type ℓ} {A : Type 0} → A → Command W A
pure a w = (w, ok a)

-- A step that reads the world only.
unfoldable pub ask {ℓ} : {W : Type ℓ} {A : Type 0} → (W → Result A) → Command W A
ask f w = (w, f w)

-- A command that succeeds goes on from the world and the value of its first step.
pub bind-eq-ok {ℓ} :
    {W : Type ℓ} {A B : Type 0} (m : Command W A) (f : A → Command W B) (w : W) {v : W} {b : B}
    → (m >>= f) w ≡ (v, ok b)
    → (u : W) × (a : A) × (m w ≡ (u, ok a)) × (f a u ≡ (v, ok b))
unfolding ◌>>=◌ go_on
bind-eq-ok {W = W} {A = A} {B = B} m f w h = go (m w) refl h
  where
    go :
        (r : W × Result A) {v : W} {b : B}
        → m w ≡ r
        → go_on f r ≡ (v, ok b)
        → (u : W) × (a : A) × (m w ≡ (u, ok a)) × (f a u ≡ (v, ok b))
    go (u, ok a) e h = (u, a, e, h)
    go (u, err x) e h = cc

pub then-eq-ok {ℓ} :
    {W : Type ℓ} {A B : Type 0} (m : Command W A) (k : Command W B) (w : W) {v : W} {b : B}
    → (m >> k) w ≡ (v, ok b)
    → (u : W) × (a : A) × (m w ≡ (u, ok a)) × (k u ≡ (v, ok b))
unfolding ◌>>◌
then-eq-ok m k w h = bind-eq-ok m (λ _. k) w h

-- A reading step leaves the world.
pub ask-eq-ok {ℓ} :
    {W : Type ℓ} {A : Type 0} (f : W → Result A) (w : W) {v : W} {a : A}
    → ask f w ≡ (v, ok a)
    → (w ≡ v) × (f w ≡ ok a)
unfolding ask
ask-eq-ok f w h = (ap (λ r. r.0) h, ap (λ r. r.1) h)

-- What holds behind a command, whether it stops at its first step or not.
pub bind-after {ℓ κ} :
    {W : Type ℓ} {A B : Type 0} (Q : W → Type κ) (m : Command W A) (f : A → Command W B) (w : W)
    → ((u : W) (e : Error) → m w ≡ (u, err e) → Q u)
    → ((u : W) (a : A) → m w ≡ (u, ok a) → Q (f a u).0)
    → Q ((m >>= f) w).0
unfolding ◌>>=◌ go_on
bind-after {W = W} {A = A} Q m f w stopped goes = go (m w) refl
  where
    go : (r : W × Result A) → m w ≡ r → Q (go_on f r).0
    go (u, ok a) e = goes u a e
    go (u, err x) e = stopped u x e

pub then-after {ℓ κ} :
    {W : Type ℓ} {A B : Type 0} (Q : W → Type κ) (m : Command W A) (k : Command W B) (w : W)
    → ((u : W) (e : Error) → m w ≡ (u, err e) → Q u)
    → ((u : W) (a : A) → m w ≡ (u, ok a) → Q (k u).0)
    → Q ((m >> k) w).0
unfolding ◌>>◌
then-after Q m k w stopped goes = bind-after Q m (λ _. k) w stopped goes
