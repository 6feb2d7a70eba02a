-- ===== src/Backup/Choice.antt =====
-- When a backup is incremental, and what it is made from.
use uback.Base.{
  pos, ◌<◌, ◌+◌, ◌*◌, ℕ, ◌≡◌, refl, sym, ◌∙◌, Bool, true, false, ◌||◌, Option, none, some, List, [],
  ◌∷◌, Names, member, ℤ, Bool-cases, inl, inr, arith, is_empty, if◌then◌else◌, Result, ok, ◌>>=◌,
  ap, bind-eq-ok, In, here, there,
}
use uback.Snapshot.{Snapshot, Backup}
use uback.Snapshot.Time.{backup_time}
use uback.Retention.{due}
use uback.Retention.Due.{young-due}
use uback.Retention.Interval.{parse_interval}
use uback.Backup.{
  Found, nothing_found, is_none, look_at, look_through, choose_found, BackupOptions, choose_base,
}

-- The first backup of the list that passes a test.
unfoldable pub first : (Backup → Bool) → List Backup → Option Backup
first p [] = none
first p (b ∷ bs) = if p b then some b else first p bs

pub first-In : (p : Backup → Bool) (bs : List Backup) (b : Backup) → first p bs ≡ some b → In b bs
unfolding first
first-In p [] b h = ground arith
first-In p (c ∷ bs) b h = elim (Bool-cases (p c)) [
  | inl e ↦ here (ground arith)
  | inr e ↦ there (first-In p bs b (ground arith))
]

abbrev pub is_base_less : Backup → Bool
is_base_less b = is_none b.base_snapshot

abbrev pub is_common : Names → Backup → Bool
is_common set b = member b.snapshot set

abbrev or_else {ℓ} : {A : Type ℓ} → Option A → Option A → Option A
or_else none y = y
or_else (some x) y = some x

abbrev snapshot_of : Option Backup → Option Snapshot
snapshot_of none = none
snapshot_of (some b) = some b.snapshot

look_through-first :
    (set : Names) (f : Found) (bs : List Backup)
    → ((look_through set f bs).last_full ≡ or_else f.last_full (first is_base_less bs))
      × ((look_through set f bs).last_common
          ≡ or_else f.last_common (snapshot_of (first (is_common set) bs)))
unfolding look_through look_at first
look_through-first set f [] = ground arith
look_through-first set f (b ∷ bs) = ground (arith, look_through-first set (look_at set f b) bs)

young_base :
    (old : Bool) (c base : Snapshot)
    → Result.ok (if old then none else some c) ≡ ok (some base)
    → (some c ≡ some base) × (old ≡ false)
young_base true c base q = ground arith
young_base false c base q = (ground arith, refl)

choose_found-some :
    (interval : ℤ) (now : ℕ) (full : Option Backup) (common : Option Snapshot) (base : Snapshot)
    → choose_found interval now full common ≡ ok (some base)
    → (b : Backup) × (t : ℕ) × (full ≡ some b)
      × (common ≡ some base)
      × (backup_time b ≡ ok t)
      × (due interval now t ≡ false)
unfolding choose_found
choose_found-some interval now none common base h = ground arith
choose_found-some interval now (some b) none base h = ground arith
choose_found-some interval now (some b) (some c) base h =
    let (t, timed, q) =
      bind-eq-ok (backup_time b) (λ t. ok (if due interval now t then none else some c)) h in
    let (e, young) = young_base (due interval now t) c base q in (b, t, refl, e, timed, young)

snapshot_of-some :
    (b : Option Backup) (s : Snapshot)
    → snapshot_of b ≡ some s
    → (c : Backup) × (b ≡ some c) × (c.snapshot ≡ s)
snapshot_of-some none s h = ground arith
snapshot_of-some (some c) s h = (c, refl, ground arith)

chosen :
    (forced : Bool) (m : Result (Option Snapshot)) (base : Snapshot)
    → (if forced then ok none else m) ≡ ok (some base)
    → (forced ≡ false) × (m ≡ ok (some base))
chosen true m base h = ground arith
chosen false m base h = (refl, h)

-- The choice by two searches from the newest backup on.
pub choose_base-first :
    (o : BackupOptions) (now : ℕ) (set : Names) (bs : List Backup) (base : Snapshot)
    → choose_base o now set bs ≡ ok (some base)
    → (interval : ℤ) × (full common : Backup) × (t : ℕ) × (parse_interval o.full_interval
        ≡ ok interval)
      × (first is_base_less bs ≡ some full)
      × (first (is_common set) bs ≡ some common)
      × (common.snapshot ≡ base)
      × (backup_time full ≡ ok t)
      × (due interval now t ≡ false)
unfolding choose_base
choose_base-first o now set bs base h =
    let (unforced, q) =
      chosen (o.force_full || is_empty o.state_file || is_empty o.full_interval) _ base h in
    let (interval, parsed, r) = bind-eq-ok (parse_interval o.full_interval) _ q in
    let found = look_through set nothing_found bs in
    let (full, t, is_full, is_base, timed, young) =
      choose_found-some interval now found.last_full found.last_common base r in
    let (fulls, commons) = look_through-first set nothing_found bs in
    let (common, firsts, e) = snapshot_of-some _ base (sym commons ∙ is_base) in
    (interval, full, common, t, parsed, sym fulls ∙ is_full, firsts, e, timed, young)

unforced :
    (forced : Bool) (m : Result (Option Snapshot))
    → forced ≡ false
    → (if forced then ok none else m) ≡ m
unforced true m h = ground arith
unforced false m h = refl

-- If full backups are not asked for, the newest backup's snapshot is still in the source, and the newest full
-- backup is less than nine tenths of the positive interval old, with times in milliseconds, then the next backup is made on top of the newest one.
pub choose_base-newest :
    (o : BackupOptions) (now : ℕ) (set : Names) (b : Backup) (bs : List Backup) (full : Backup)
    (n : ℕ) (t : ℕ)
    → (o.force_full || is_empty o.state_file || is_empty o.full_interval) ≡ false
    → parse_interval o.full_interval ≡ ok (pos n)
    → member b.snapshot set ≡ true
    → first is_base_less (b ∷ bs) ≡ some full
    → backup_time full ≡ ok t
    → 0 < n
    → now < t + 900 * n
    → choose_base o now set (b ∷ bs) ≡ ok (some b.snapshot)
unfolding choose_base choose_found first
choose_base-newest o now set b bs full n t asked parsed common newest timed positive young =
    let (fulls, commons) = look_through-first set nothing_found (b ∷ bs) in
    let f : (look_through set nothing_found (b ∷ bs)).last_full ≡ some full = fulls ∙ newest in
    let c : (look_through set nothing_found (b ∷ bs)).last_common ≡ some b.snapshot =
      commons ∙ rw common refl in
    unforced (o.force_full || is_empty o.state_file || is_empty o.full_interval) _ asked
    ∙ ap
        (λ r. r >>= λ interval.
          let found = look_through set nothing_found (b ∷ bs) in
          choose_found interval now found.last_full found.last_common)
        parsed
    ∙ ap (λ l. choose_found (pos n) now l (look_through set nothing_found (b ∷ bs)).last_common) f
    ∙ ap (choose_found (pos n) now (some full)) c
    ∙ ap (λ r. r >>= λ t. ok (if due (pos n) now t then none else some b.snapshot)) timed
    ∙ ap (λ d. ok (if d then none else some b.snapshot)) (young-due n now t positive young)
