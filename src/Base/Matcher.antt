-- ===== src/Base/Matcher.antt =====
-- A part of a regular expression that matches in one way is a function that reads a prefix of the
-- text, and gives what it read and the rest.
use mathlib.Core.Path.{◌≡◌, refl, sym, ap, ◌∙◌, subst}
use mathlib.Core.List.{[], ◌++◌, append_assoc, append_cancel_right}
use mathlib.Core.Option.{Option, none, some}
use native.Mathlib.Omega.{arith}
use uback.Base.Text.{Bytes, cut_prefix, cut_prefix-append, cut_prefix-eq-some}

abbrev pub Matcher : Type 0 → Type 0
Matcher A = Bytes → Option (A × Bytes)

infixl 5 ◌>>=◌ ◌>>◌
unfoldable pub ◌>>=◌ : {A B : Type 0} → Matcher A → (A → Matcher B) → Matcher B
◌>>=◌ m f s = elim (m s) [ none ↦ none | some (a, r) ↦ f a r ]

unfoldable pub ◌>>◌ : {B : Type 0} → Matcher (Unit {0}) → Matcher B → Matcher B
unfolding ◌>>=◌
m >> k = m >>= λ _. k

unfoldable pub pure : {A : Type 0} → A → Matcher A
pure a s = some (a, s)

unfoldable pub literal : Bytes → Matcher (Unit {0})
literal p s = elim (cut_prefix p s) [ none ↦ none | some r ↦ some (tt, r) ]

-- On `s` the matcher reads `word`, and gives `a` whatever follows that word.
pub record Reads {A : Type 0} (m : Matcher A) (s : Bytes) (a : A) (rest : Bytes) : Type 0 where
  pub word : Bytes
  pub splits : s ≡ word ++ rest
  pub again : (t : Bytes) → m (word ++ t) ≡ some (a, t)

abbrev pub IsExact : {A : Type 0} → Matcher A → Type 0
IsExact {A} m = (s : Bytes) (a : A) (rest : Bytes) → m s ≡ some (a, rest) → Reads m s a rest

module _ {A B : Type 0} where
  pub bind-eq-some :
      (m : Matcher A) (f : A → Matcher B) (s : Bytes) {b : B} {rest : Bytes}
      → (m >>= f) s ≡ some (b, rest)
      → (a : A) × (r : Bytes) × (m s ≡ some (a, r)) × (f a r ≡ some (b, rest))
  unfolding ◌>>=◌
  bind-eq-some m f s h = go (m s) refl h
    where
      go :
          (o : Option (A × Bytes)) {b : B} {rest : Bytes}
          → m s ≡ o
          → (elim o [ none ↦ none | some (a, r) ↦ f a r ]) ≡ some (b, rest)
          → (a : A) × (r : Bytes) × (m s ≡ some (a, r)) × (f a r ≡ some (b, rest))
      go none e h = cc
      go (some (a, r)) e h = (a, r, e, h)

  pub bind_of_some :
      (m : Matcher A) (f : A → Matcher B) (s : Bytes) {a : A} {r : Bytes}
      → m s ≡ some (a, r)
      → (m >>= f) s ≡ f a r
  unfolding ◌>>=◌
  bind_of_some m f s h = rw (h, ◌>>=◌)

  pub bind-IsExact :
      (m : Matcher A) (f : A → Matcher B)
      → IsExact m
      → ((a : A) → IsExact (f a))
      → IsExact (m >>= f)
  bind-IsExact m f hm hf s b rest h =
      let (a, r, e, e') = bind-eq-some m f s h in
      let first = hm s a r e in
      let then_ = hf a r b rest e' in
      record {
        word = first.word ++ then_.word;
        splits =
            first.splits ∙ ap (◌++◌ first.word) then_.splits ∙ sym (append_assoc first.word _ _);
        again = λ t. rw append_assoc (bind_of_some m f _ (first.again _) ∙ then_.again t);
      }

pub pure-IsExact : {A : Type 0} (a : A) → IsExact (pure a)
unfolding pure
pure-IsExact a s b rest h = record { word = []; splits = ground arith; again = λ t. ground arith }

pub literal-eq-some :
    (p s : Bytes) {u : Unit {0}} {rest : Bytes} → literal p s ≡ some (u, rest) → s ≡ p ++ rest
unfolding literal
literal-eq-some p s {u} {rest} h = go (cut_prefix p s) refl h
  where
    go :
        (o : Option Bytes) {u : Unit {0}}
        → cut_prefix p s ≡ o
        → ◌≡◌ {A = Option (Unit {0} × Bytes)}
            (elim o [ none ↦ none | some r ↦ some (tt, r) ])
            (some (u, rest))
        → s ≡ p ++ rest
    go none e h = cc
    go (some r) e h = cut_prefix-eq-some p s rest (ground arith)

pub literal-append : (p s : Bytes) → literal p (p ++ s) ≡ some (tt, s)
unfolding literal
literal-append p s = rw (cut_prefix-append, literal)

pub literal-IsExact : (p : Bytes) → IsExact (literal p)
literal-IsExact p s tt rest h = record {
  word = p;
  splits = literal-eq-some p s h;
  again = literal-append p;
}

-- Behind the text `pre`, what the matcher reads is completed to the text that shows its result.
abbrev pub Spells : {A : Type 0} → (A → Bytes) → Bytes → Matcher A → Type 0
Spells {A} show pre m =
    (s : Bytes) (a : A) (rest : Bytes) → m s ≡ some (a, rest) → pre ++ s ≡ show a ++ rest

module _ {A B : Type 0} where
  pub bind-Spells :
      (m : Matcher A) (f : A → Matcher B) (show : A → Bytes) (show' : B → Bytes) (pre : Bytes)
      → Spells show [] m
      → ((a : A) → Spells show' (pre ++ show a) (f a))
      → Spells show' pre (m >>= f)
  bind-Spells m f show show' pre hm hf s b rest h =
      let (a, r, e, e') = bind-eq-some m f s h in
      ap (◌++◌ pre) (hm s a r e) ∙ sym (append_assoc pre _ _) ∙ hf a r b rest e'

pub pure-Spells :
    {A : Type 0} (a : A) (show : A → Bytes) (pre : Bytes) → pre ≡ show a → Spells show pre (pure a)
unfolding pure
pure-Spells a show pre h s b rest e =
    let e' : a ≡ b = ground arith in let e'' : s ≡ rest = ground arith in rw (h, e', e'')

pub literal-Spells : (p : Bytes) → Spells (λ _. p) [] (literal p)
literal-Spells p s u rest h = literal-eq-some p s h

-- A matcher that spells its result reads that spelling again, whatever follows.
pub again_of_Spells :
    {A : Type 0} (m : Matcher A) (show : A → Bytes)
    → IsExact m
    → Spells show [] m
    → (s : Bytes) (a : A) (rest t : Bytes) → m s ≡ some (a, rest)
    → m (show a ++ t) ≡ some (a, t)
again_of_Spells m show exact spells s a rest t h =
    let read = exact s a rest h in
    let word = append_cancel_right read.word (show a) rest (sym read.splits ∙ spells s a rest h) in
    subst (λ w. m (w ++ t) ≡ some (a, t)) word (read.again t)

-- Every result of the matcher satisfies `P`.
abbrev pub Ensures : {A : Type 0} → (A → Type 0) → Matcher A → Type 0
Ensures {A} P m = (s : Bytes) (a : A) (rest : Bytes) → m s ≡ some (a, rest) → P a

pub bind-Ensures :
    {A B : Type 0} (m : Matcher A) (f : A → Matcher B) (P : A → Type 0) (Q : B → Type 0)
    → Ensures P m
    → ((a : A) → P a → Ensures Q (f a))
    → Ensures Q (m >>= f)
bind-Ensures m f P Q hm hf s b rest h =
    let (a, r, e, e') = bind-eq-some m f s h in hf a (hm s a r e) r b rest e'

pub pure-Ensures : {A : Type 0} (a : A) (P : A → Type 0) → P a → Ensures P (pure a)
unfolding pure
pure-Ensures a P p s b rest h = let e : a ≡ b = ground arith in subst P e p

pub literal-Ensures : (p : Bytes) → Ensures (λ _. Unit {0}) (literal p)
literal-Ensures p s a rest h = tt

pub then-Ensures :
    {B : Type 0} (m : Matcher (Unit {0})) (k : Matcher B) (Q : B → Type 0)
    → Ensures Q k
    → Ensures Q (m >> k)
unfolding ◌>>◌
then-Ensures m k Q hk s b rest h = let (a, r, e, e') = bind-eq-some m (λ _. k) s h in hk r b rest e'
