-- ===== src/Security/AuthAttempts/Growth.antt =====
-- How the count and the lockouts grow.
use remotelink.Prelude.{
  ℕ, zero, suc, ◌+◌, ◌-◌, ◌*◌, ◌/◌, ◌^◌, dec_lt, ◌≡◌, ◌∙◌, sym, ◌≤◌, ◌<◌, min, max, refl, none,
  some, String, String_discrete, arith, length, List, [], ◌∷◌,
}
use remotelink.Security.AuthAttempts.Lockout.{locked_record, stored}
use native.Mathlib.Omega.{pow_step}
use remotelink.Map.{lookup}
use remotelink.Map.Laws.{lookup-insert_self}
use remotelink.Security.AuthAttempts.{
  AuthAttemptTracker, AttemptRecord, check, record_failure, failures, entry, counted, engage,
  is_stale, compute_lockout, u32_max, second,
}

-- A failure counts one more, from 1 again when the quiet period is over, and it reports a lockout
-- when the count has reached the threshold.
pub record_failure-failures :
    (key : String) (now : ℕ) (t : AuthAttemptTracker)
    → failures key ((record_failure key now t).0)
      ≡ (counted t.config now (entry key now t)).failures
unfolding failures record_failure engage
record_failure-failures key now t = ground (
  arith,
  lookup-insert_self String_discrete key
      ((engage t.config now (counted t.config now (entry key now t))).0) t.records,
)

-- A series of failures of one key.
unfoldable pub fail_all : String → List ℕ → AuthAttemptTracker → AuthAttemptTracker
fail_all key [] t = t
fail_all key (now ∷ times) t = fail_all key times ((record_failure key now t).0)

-- The check after a lockout lifts it and keeps the count.
lifted :
    (key : String) (time until : ℕ) (t : AuthAttemptTracker) (rec : AttemptRecord)
    → lookup String_discrete key t.records ≡ some rec
    → rec.locked_until ≡ some until
    → until ≤ time
    → (lookup String_discrete key (((check key time t).0).records)
        ≡ some (record rec { locked_until = none }))
      × (((check key time t).0).config ≡ t.config)
unfolding check
lifted key time until t rec h u le = ground (
  arith,
  h,
  u,
  lookup-insert_self String_discrete key (record rec { locked_until = none }) t.records,
)

stale_failure :
    (key : String) (time : ℕ) (t : AuthAttemptTracker) (rec : AttemptRecord)
    → lookup String_discrete key t.records ≡ some rec
    → t.config.failure_window < time - rec.last_failure
    → failures key ((record_failure key time t).0) ≡ 1
unfolding counted entry is_stale
stale_failure key time t rec h lt = ground (arith, h, record_failure-failures key time t)

failures_of :
    (key : String) (t : AuthAttemptTracker) (rec : AttemptRecord)
    → lookup String_discrete key t.records ≡ some rec
    → failures key t ≡ rec.failures
unfolding failures
failures_of key t rec h = rw (failures, h) refl

-- A lockout that lasts longer than the quiet period is forgotten with the count: a failure after
-- its end counts from 1 again, though the check there keeps the count for the next step.
pub lockout_forgets :
    (key : String) (now d time : ℕ) (t t' : AuthAttemptTracker)
    → record_failure key now t ≡ (t', some d)
    → t.config.failure_window < d
    → now + d ≤ time
    → (failures key ((check key time t').0) ≡ failures key t')
      × (failures key ((record_failure key time ((check key time t').0)).0) ≡ 1)
lockout_forgets key now d time t t' e lt le =
    let (rec, h, u, last, c) = locked_record key now d t t' e in
    let (l, cl) = lifted key time (now + d) t' rec h u le in
    (
      failures_of key ((check key time t').0) (record rec { locked_until = none }) l
          ∙ sym (failures_of key t' rec h),
      stale_failure key time ((check key time t').0) (record rec { locked_until = none }) l
          (ground (arith, last, c, cl)),
    )

-- The times of a list follow each other, and the time before them, within the quiet period.
abbrev pub Close : ℕ → ℕ → List ℕ → Type 0
Close window last [] = Unit {0}
Close window last (now ∷ times) = (now ≤ last + window) × Close window now times

next_record :
    (key : String) (now : ℕ) (t : AuthAttemptTracker)
    → now ≤ (entry key now t).last_failure + t.config.failure_window
    → (rec : AttemptRecord) × (lookup String_discrete key (((record_failure key now t).0).records)
        ≡ some rec)
      × (rec.failures ≡ min ((entry key now t).failures + 1) u32_max)
      × (rec.last_failure ≡ now)
unfolding engage counted is_stale
next_record key now t le = (
  (engage t.config now (counted t.config now (entry key now t))).0,
  stored key now t,
  ground arith,
  ground arith,
)

entry_of :
    (key : String) (now : ℕ) (t : AuthAttemptTracker) (rec : AttemptRecord)
    → lookup String_discrete key t.records ≡ some rec
    → entry key now t ≡ rec
unfolding entry
entry_of key now t rec h = rw (entry, h) refl

fail_all_lem :
    (key : String) (times : List ℕ) (t : AuthAttemptTracker) (rec : AttemptRecord)
    → lookup String_discrete key t.records ≡ some rec
    → rec.failures ≤ u32_max
    → Close t.config.failure_window rec.last_failure times
    → failures key (fail_all key times t) ≡ min (rec.failures + length times) u32_max
unfolding fail_all record_failure
fail_all_lem key [] t rec h le close = ground (arith, failures_of key t rec h)
fail_all_lem key (now ∷ times) t rec h le close =
    let en = entry_of key now t rec h in
    let (rec', h', f, last) = next_record key now t (ground (arith, en)) in
    ground (
      arith,
      en,
      f,
      fail_all_lem key times ((record_failure key now t).0) rec' h' (ground (arith, f))
          (rw (last) close.1),
    )

-- Failures of an unknown key that follow each other within the quiet period all count, up to the
-- range of the counter, whether a lockout is engaged or not.
pub fail_all-failures :
    (key : String) (first : ℕ) (times : List ℕ) (t : AuthAttemptTracker)
    → lookup String_discrete key t.records ≡ none
    → Close t.config.failure_window first times
    → failures key (fail_all key (first ∷ times) t) ≡ min (1 + length times) u32_max
unfolding fail_all entry record_failure
fail_all-failures key first times t h close =
    let (rec, h', f, last) = next_record key first t (ground (arith, h)) in
    ground (
      arith,
      h,
      f,
      fail_all_lem key times ((record_failure key first t).0) rec h' (ground (arith, f))
          (rw (last) close),
    )

times_mono : (n a b : ℕ) → a ≤ b → n * a ≤ n * b
times_mono zero a b h = omega arith
times_mono (suc n) a b h = grind (arith, times_mono n a b h)

pow_grow : (k : ℕ) → 2 ^ k ≤ 2 ^ suc k
pow_grow k = ground (arith, pow_step 2 k)

shift_mono : (over : ℕ) → 2 ^ min over 20 ≤ 2 ^ min (over + 1) 20
shift_mono over = elim (dec_lt over 20) [
  | yes lt ↦
      let low : min over 20 ≡ over = omega arith in
      let high : min (over + 1) 20 ≡ suc over = omega arith in rw (low, high) (pow_grow over)
  | no ge ↦ ground arith
]

-- The lockouts grow with the number of failures over the threshold, last at least a second, and
-- stay within the cap, which counts in whole seconds.
pub compute_lockout-grows :
    (base cap over : ℕ)
    → (compute_lockout base cap over ≤ compute_lockout base cap (over + 1))
      × (second ≤ compute_lockout base cap over)
      × (compute_lockout base cap over ≤ max cap second)
unfolding compute_lockout
compute_lockout-grows base cap over =
    ground
      (arith, shift_mono over, times_mono (base / second) (2 ^ min over 20) (2 ^ min (over + 1) 20))
