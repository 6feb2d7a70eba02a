-- ===== src/Retention/Due.antt =====
-- What the test of the two loops, `last.Sub(t).Seconds() >= 0.9*float64(interval)`, says of milliseconds.
use uback.Base.{ℕ, ◌+◌, ◌*◌, ◌≤◌, ◌<◌, ◌≡◌, true, false, pos, saturate, Bool-cases, inl, inr, arith}
use uback.Retention.{due}

-- With a positive interval, and times in milliseconds: nine tenths of a second are 900 of them.
pub due-elapsed : (n last t : ℕ) → 0 < n → due (pos n) last t ≡ true → t + 900 * n ≤ last
unfolding due saturate
due-elapsed n last t positive h = ground arith

pub young-due : (n last t : ℕ) → 0 < n → last < t + 900 * n → due (pos n) last t ≡ false
young-due n last t positive h = elim (Bool-cases (due (pos n) last t)) [
  | inl e ↦ let long = due-elapsed n last t positive e in absurd (omega (arith, long, h))
  | inr e ↦ e
]
