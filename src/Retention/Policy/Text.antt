-- ===== src/Retention/Policy/Text.antt =====
-- `ParseRetentionPolicy` on a key, a count and options.
use uback.Base.{
  ℕ, zero, suc, ◌≡◌, refl, ap, ◌∙◌, Bool, true, false, not, ◌&&◌, ◌||◌, some, List, [], ◌∷◌, ◌++◌,
  Bytes, codes, ◌==◌, Result, ok, ◌>>=◌, atoi, equal, arith, trim_space, split_once, split,
  or-true_right, ℤ,
}
use mathlib.Core.List.{append-nil}
use mathlib.Core.Path.{fun_ext}
use uback.Retention.{RetentionPolicy}
use uback.Retention.Interval.{parse_interval}
use uback.Retention.Policy.{parse_options, parse_fields, parse_item, parse_retention_policy}

-- The byte stands nowhere in the text.
unfoldable pub lacks : ℕ → Bytes → Bool
lacks sep [] = true
lacks sep (c ∷ s) = not (c == sep) && lacks sep s

split_once-lacks :
    (sep : ℕ) (k v : Bytes) → lacks sep k ≡ true → split_once sep (k ++ sep ∷ v) ≡ (k, some v)
unfolding lacks split_once
split_once-lacks sep [] v h = ground arith
split_once-lacks sep (c ∷ k) v h = ground (arith, split_once-lacks sep k v)

split-nil : (sep : ℕ) (k : Bytes) → lacks sep k ≡ true → split sep k ≡ (k, [])
unfolding lacks split
split-nil sep [] h = refl
split-nil sep (c ∷ k) h = ground (arith, split-nil sep k)

split-lacks :
    (sep : ℕ) (k v : Bytes)
    → lacks sep k ≡ true
    → split sep (k ++ sep ∷ v) ≡ (k, (split sep v).0 ∷ (split sep v).1)
unfolding lacks split
split-lacks sep [] v h = ground arith
split-lacks sep (c ∷ k) v h = ground (arith, split-lacks sep k v)

-- `:full`, so many times.
unfoldable pub full_options : ℕ → Bytes
full_options zero = []
full_options (suc n) = codes ":full" ++ full_options n

abbrev fulls : ℕ → List Bytes
fulls zero = []
fulls (suc n) = codes "full" ∷ fulls n

split-full_options :
    (c : Bytes) (n : ℕ) → lacks b':' c ≡ true → split b':' (c ++ full_options n) ≡ (c, fulls n)
unfolding full_options
split-full_options c zero h = ap (split b':') (append-nil c) ∙ split-nil b':' c h
split-full_options c (suc n) h =
    split-lacks b':' c (codes "full" ++ full_options n) h
    ∙ ap (λ (t : Bytes × List Bytes). (c, t.0 ∷ t.1))
        (split-full_options (codes "full") n (unfold lacks in refl))

abbrev pub is_positive : ℕ → Bool
is_positive zero = false
is_positive (suc n) = true

or-false_right : (b : Bool) → (b || false) ≡ b
or-false_right true = refl
or-false_right false = refl

parse_options-fulls :
    (p : RetentionPolicy) (n : ℕ)
    → parse_options p (fulls n) ≡ ok (record p { full_only = is_positive n || p.full_only })
unfolding parse_options trim_space equal
parse_options-fulls p zero = refl
parse_options-fulls p (suc n) =
    parse_options-fulls (record p { full_only = true }) n
    ∙ ap (λ full. ok (record p { full_only = full })) (or-true_right (is_positive n))

-- A key, a count and any number of `full` options are parsed to the interval of the key, the count, and
-- whether the option is there. The errors are those of the count and of the interval, in this order.
pub parse_retention_policy-text :
    (k c : Bytes) (n : ℕ)
    → lacks b'=' k ≡ true
    → lacks b':' c ≡ true
    → parse_retention_policy (k ++ b'=' ∷ (c ++ full_options n)) ≡ (
        atoi (trim_space c) >>= λ count. parse_interval (trim_space k) >>= λ intv.
        ok (record { interval = intv; count = count; full_only = is_positive n }))
unfolding parse_retention_policy
parse_retention_policy-text k c n hk hc =
    ap parse_item (split_once-lacks b'=' k (c ++ full_options n) hk)
    ∙ ap (parse_fields k) (split-full_options c n hc)
    ∙ ap
        (λ (f : ℤ → ℤ → Result RetentionPolicy).
          atoi (trim_space c) >>= λ count. parse_interval (trim_space k) >>= λ intv. f count intv)
        (fun_ext λ count. fun_ext λ intv.
          parse_options-fulls (record { interval = intv; count = count; full_only = false }) n
          ∙ ap (λ full. ok (record { interval = intv; count = count; full_only = full }))
              (or-false_right (is_positive n)))
