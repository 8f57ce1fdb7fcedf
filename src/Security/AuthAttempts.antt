-- ===== src/Security/AuthAttempts.antt =====
-- The tracker of failed authentications (apps/server/src/security/auth_attempts.rs): a counter and
-- a lockout for each key. Times and durations are nanoseconds; `saturating_duration_since` is the
-- subtraction of ℕ, which stops at 0 as well.
pub mod Lockout
pub mod Growth
use remotelink.Prelude.{
  ℕ, ◌+◌, ◌-◌, ◌*◌, ◌/◌, ◌^◌, min, max, Bool, Option, none, some, ltb, leb, if◌then◌else◌, Result,
  ok, err, String, String_discrete, [],
}
use remotelink.Map.{Map, lookup, insert, remove}

abbrev pub second : ℕ
second = 1000000000

abbrev pub u32_max : ℕ
u32_max = 4294967295

abbrev pub u64_max : ℕ
u64_max = 18446744073709551615

pub record AuthAttemptConfig : Type 0 where
  pub max_failures_before_lockout : ℕ
  pub base_lockout : ℕ
  pub max_lockout : ℕ
  pub failure_window : ℕ

abbrev pub default_config : AuthAttemptConfig
default_config = record {
  max_failures_before_lockout = 5;
  base_lockout = 2 * second;
  max_lockout = 3600 * second;
  failure_window = 15 * 60 * second;
}

pub record LockoutActive : Type 0 where
  pub retry_after : ℕ
  pub failures : ℕ

pub record AttemptRecord : Type 0 where
  pub failures : ℕ
  pub last_failure : ℕ
  pub locked_until : Option ℕ

pub record AuthAttemptTracker : Type 0 where
  pub config : AuthAttemptConfig
  pub records : Map String AttemptRecord

unfoldable pub new : AuthAttemptConfig → AuthAttemptTracker
new config = record { config = config; records = [] }

-- `base * 2^over_threshold`, in whole seconds, capped; the shift is of a u64 and the product
-- saturates.
unfoldable pub compute_lockout : ℕ → ℕ → ℕ → ℕ
compute_lockout base cap over_threshold =
    let mult = 2 ^ min over_threshold 20 in
    let secs = min (base / second * mult) u64_max in max (min secs (cap / second)) 1 * second

-- The quiet period is over.
unfoldable pub is_stale : AuthAttemptConfig → ℕ → AttemptRecord → Bool
is_stale config now rec = ltb config.failure_window (now - rec.last_failure)

unfoldable pub check :
    String → ℕ → AuthAttemptTracker → AuthAttemptTracker × Result (Unit {0}) LockoutActive
unfolding is_stale
check key now t = elim (lookup String_discrete key t.records) [
  | none ↦ (t, ok tt)
  | some rec ↦ elim rec.locked_until [
    | none ↦
        if is_stale t.config now rec
        then (record t { records = remove String_discrete key t.records }, ok tt)
        else (t, ok tt)
    | some until ↦
        if ltb now until
        then (t, err (record { retry_after = until - now; failures = rec.failures }))
        else (
          record t {
            records = insert String_discrete key (record rec { locked_until = none }) t.records;
          },
          ok tt,
        )
  ]
]

-- `entry(..).or_insert(..)`
unfoldable pub entry : String → ℕ → AuthAttemptTracker → AttemptRecord
entry key now t = elim (lookup String_discrete key t.records) [
  | none ↦ record { failures = 0; last_failure = now; locked_until = none }
  | some rec ↦ rec
]

-- The reset after the quiet period, then the count.
unfoldable pub counted : AuthAttemptConfig → ℕ → AttemptRecord → AttemptRecord
unfolding is_stale
counted config now rec =
    if is_stale config now rec
    then record { failures = 1; last_failure = now; locked_until = none }
    else record {
      failures = min (rec.failures + 1) u32_max;
      last_failure = now;
      locked_until = rec.locked_until;
    }

-- The lockout which the count brings about.
unfoldable pub engage : AuthAttemptConfig → ℕ → AttemptRecord → AttemptRecord × Option ℕ
engage config now rec =
    if leb config.max_failures_before_lockout rec.failures
    then (let over = rec.failures - config.max_failures_before_lockout in
        let lockout = compute_lockout config.base_lockout config.max_lockout over in
        (record rec { locked_until = some (now + lockout) }, some lockout))
    else elim rec.locked_until [
      | none ↦ (rec, none)
      | some until ↦
          if ltb now until
          then (rec, some (until - now))
          else (record rec { locked_until = none }, none)
    ]

unfoldable pub record_failure : String → ℕ → AuthAttemptTracker → AuthAttemptTracker × Option ℕ
unfolding entry counted engage
record_failure key now t =
    let (rec, lockout) = engage t.config now (counted t.config now (entry key now t)) in
    (record t { records = insert String_discrete key rec t.records }, lockout)

unfoldable pub record_success : String → AuthAttemptTracker → AuthAttemptTracker
record_success key t = record t { records = remove String_discrete key t.records }

unfoldable pub failures : String → AuthAttemptTracker → ℕ
failures key t = elim (lookup String_discrete key t.records) [ none ↦ 0 | some rec ↦ rec.failures ]

unfoldable pub clear : AuthAttemptTracker → AuthAttemptTracker
clear t = record t { records = [] }
