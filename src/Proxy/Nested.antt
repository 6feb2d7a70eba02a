-- ===== src/Proxy/Nested.antt =====
-- The loop of sources/proxy.go against the options that lib/proxy.go hands on.
use uback.Base.{
  ℕ, zero, suc, ◌+◌, ◌≤◌, ◌<◌, ◌≡◌, ◌≢◌, refl, sym, ap, ◌∙◌, ◌⊎◌, inl, inr, true, false, Option,
  none, some, [], ◌∷◌, ◌++◌, Bytes, Dict, lookup, lookup-insert, codes, cut_prefix,
  cut_prefix-append, cut_prefix-eq-some, equal, equal_iff, length, if◌then◌else◌, Result, err,
  Error, Bool-cases, Option-cases, arith, All, length-append,
}
use uback.Options.{Options}
use uback.Proxy.{is_own, trim_proxy, proxied_dict, proxied_options, proxied_type, or_next}

-- A key that only `Proxy` in front of it is trimmed to.
abbrev pub IsNested : Bytes → Type 0
IsNested k = (is_own k ≡ true) ⊎ ((r : Bytes) × (k ≡ codes "Proxy" ++ r))

proxy-not_own : (k : Bytes) → IsNested k → is_own (codes "Proxy" ++ k) ≡ false
unfolding is_own equal
proxy-not_own [] (inl e) = cc
proxy-not_own [] (inr (r, e)) = cc
proxy-not_own (c ∷ k) h = refl

not_trimmed : (j r : Bytes) → cut_prefix (codes "Proxy") j ≡ none → j ≢ codes "Proxy" ++ r
not_trimmed j r e q =
    let h = sym e ∙ ap (cut_prefix (codes "Proxy")) q ∙ cut_prefix-append (codes "Proxy") r in cc

-- A key of the proxy's own, or a nested one, is not a key that stays as it is.
not_kept :
    (k j : Bytes)
    → IsNested k
    → is_own j ≡ false
    → cut_prefix (codes "Proxy") j ≡ none
    → equal k j ≡ false
not_kept k j h foreign e = elim (Bool-cases (equal k j)) [
  | inr other ↦ other
  | inl same ↦
      let q = (equal_iff k j).0 same in
      elim h [
        | inl own ↦ let c = sym own ∙ ap is_own q ∙ foreign in cc
        | inr (r, p) ↦ absurd (not_trimmed j r e (sym q ∙ p))
      ]
]

trim_proxy-nested :
    (k j : Bytes)
    → IsNested k
    → is_own j ≡ false
    → equal k (trim_proxy j) ≡ equal (codes "Proxy" ++ k) j
unfolding trim_proxy equal
trim_proxy-nested k j h foreign = elim (Option-cases (cut_prefix (codes "Proxy") j)) [
  | inl e ↦ elim (Bool-cases (equal (codes "Proxy" ++ k) j)) [
    | inl same ↦ absurd (not_trimmed j k e (sym ((equal_iff (codes "Proxy" ++ k) j).0 same)))
    | inr other ↦ rw e (not_kept k j h foreign e ∙ sym other)
  ]
  | inr (r, e) ↦
      rw e (ap (equal (codes "Proxy" ++ k)) (sym (cut_prefix-eq-some (codes "Proxy") j r e)))
]

own_other : (k j : Bytes) → IsNested k → is_own j ≡ true → equal (codes "Proxy" ++ k) j ≡ false
own_other k j h own = elim (Bool-cases (equal (codes "Proxy" ++ k) j)) [
  | inr other ↦ other
  | inl same ↦
      let c =
        sym (proxy-not_own k h) ∙ ap is_own ((equal_iff (codes "Proxy" ++ k) j).0 same) ∙ own in
      cc
]

-- The option `ProxyX` is handed on as `X`.
lookup-proxied_dict :
    {V : Type 0} (k : Bytes) (m : Dict V)
    → IsNested k
    → lookup k (proxied_dict m) ≡ lookup (codes "Proxy" ++ k) m
unfolding proxied_dict lookup
lookup-proxied_dict k [] h = refl
lookup-proxied_dict k ((j, v) ∷ m) h = elim (Bool-cases (is_own j)) [
  | inl own ↦ rw (own, own_other k j h own) (lookup-proxied_dict k m h)
  | inr foreign ↦
      rw (foreign, lookup-insert, trim_proxy-nested k j h foreign)
        (ap (λ t. if equal (codes "Proxy" ++ k) j then some v else t) (lookup-proxied_dict k m h))
]

-- What each proxy in the chain finds under `Type` in the options that it is given, up to one that is no proxy.
pub nested_type : ℕ → Options → Result Bytes
nested_type zero o = err Error.endless_proxies
nested_type (suc fuel) o =
    or_next (lookup (codes "Type") o.strings) (nested_type fuel (proxied_options o))

abbrev IsRun : Bytes → Type 0
IsRun p = (p ≡ []) ⊎ ((r : Bytes) × (p ≡ codes "Proxy" ++ r))

IsRun-IsNested : (p : Bytes) → IsRun p → IsNested (p ++ codes "Type")
unfolding is_own equal
IsRun-IsNested p (inl e) = inl (rw e refl)
IsRun-IsNested p (inr (r, e)) = inr (r ++ codes "Type", ap (λ p. p ++ codes "Type") e)

IsRun-next : (p : Bytes) → IsRun p → IsRun (p ++ codes "Proxy")
IsRun-next p (inl e) = inr ([], ap (λ p. p ++ codes "Proxy") e)
IsRun-next p (inr (r, e)) = inr (r ++ codes "Proxy", ap (λ p. p ++ codes "Proxy") e)

-- One `Proxy` less in the prefix is one proxy further on.
proxied_type-shift :
    (fuel : ℕ) (p : Bytes) (o : Options)
    → IsRun p
    → proxied_type fuel (codes "Proxy" ++ p) o ≡ proxied_type fuel p (proxied_options o)
unfolding proxied_type proxied_options
proxied_type-shift zero p o h = refl
proxied_type-shift (suc fuel) p o h =
    ap (or_next (lookup (codes "Proxy" ++ (p ++ codes "Type")) o.strings))
      (proxied_type-shift fuel (p ++ codes "Proxy") o (IsRun-next p h))
    ∙ ap (λ l. or_next l (proxied_type fuel (p ++ codes "Proxy") (proxied_options o)))
        (sym (lookup-proxied_dict (p ++ codes "Type") o.strings (IsRun-IsNested p h)))

proxied_type-nested_from : (fuel : ℕ) (o : Options) → proxied_type fuel [] o ≡ nested_type fuel o
unfolding proxied_type nested_type
proxied_type-nested_from zero o = refl
proxied_type-nested_from (suc fuel) o =
    ap (or_next (lookup (codes "Type") o.strings))
      (proxied_type-shift fuel [] o (inl refl) ∙ proxied_type-nested_from fuel (proxied_options o))

-- The type that the loop finds is the one that the chain of proxies ends with, each of which reads its
-- own `Type` from the options that the one before it hands on.
pub proxied_type-nested_type :
    (fuel : ℕ) (o : Options)
    → proxied_type fuel (codes "Proxy") o ≡ nested_type fuel (proxied_options o)
proxied_type-nested_type fuel o =
    proxied_type-shift fuel [] o (inl refl) ∙ proxied_type-nested_from fuel (proxied_options o)

lookup_longer :
    {V : Type 0} (k : Bytes) (m : Dict V) (n : ℕ)
    → All (λ e. length e.0 ≤ n) m
    → n < length k
    → lookup k m ≡ none
unfolding lookup
lookup_longer k [] n h q = refl
lookup_longer k ((j, v) ∷ m) n h q = elim (Bool-cases (equal k j)) [
  | inl same ↦ let e = ap length ((equal_iff k j).0 same) in absurd (omega (arith, e, h.0, q))
  | inr other ↦ rw other (lookup_longer k m n h.1 q)
]

or_next-ne :
    (t : Option Bytes) (next : Result Bytes)
    → next ≢ err Error.endless_proxies
    → or_next t next ≢ err Error.endless_proxies
or_next-ne none next h q = ground arith
or_next-ne (some typ) next h q = ground arith

proxied_type-ends_from :
    (fuel n : ℕ) (p : Bytes) (o : Options)
    → All (λ e. length e.0 ≤ n) o.strings
    → n < length p + (fuel + 4)
    → proxied_type (suc fuel) p o ≢ err Error.endless_proxies
unfolding proxied_type
proxied_type-ends_from zero n p o h q =
    rw
      (lookup_longer (p ++ codes "Type") o.strings n h
        (omega (arith, length-append p (codes "Type"), q)))
      (λ e. ground arith)
proxied_type-ends_from (suc fuel) n p o h q = or_next-ne (lookup (p ++ codes "Type") o.strings) _ (
    proxied_type-ends_from fuel n (p ++ codes "Proxy") o h
      (omega (arith, length-append p (codes "Proxy"), q)))

-- If no key is longer than `n`, the loop ends within `n + 1` rounds.
pub proxied_type-ends :
    (n : ℕ) (o : Options)
    → All (λ e. length e.0 ≤ n) o.strings
    → proxied_type (suc n) (codes "Proxy") o ≢ err Error.endless_proxies
proxied_type-ends n o h = proxied_type-ends_from n n (codes "Proxy") o h (omega arith)
