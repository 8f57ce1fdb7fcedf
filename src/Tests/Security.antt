-- ===== src/Tests/Security.antt =====
-- The tracker's properties on a key with five failures.
use remotelink.Prelude.{◌+◌, ◌*◌, ◌-◌, ◌≡◌, refl, List, [], ◌∷◌, err, arith, String_discrete}
use remotelink.Map.{lookup, insert, remove}
use remotelink.Security.AuthAttempts.{
  AuthAttemptTracker, AuthAttemptConfig, default_config, new, check, record_failure, failures,
  entry, counted, engage, is_stale, compute_lockout, second,
}
use remotelink.Security.Blocklist.{NewBlocklistEntry, ip, new as new_blocklist}
use remotelink.Security.Blocklist.Scan.{
  Call, add_entry, take_off, list, answers, scanned_answers, answers_as_scanned,
}
use remotelink.Security.AuthAttempts.Lockout.{record_failure-check}
use remotelink.Security.AuthAttempts.Growth.{lockout_forgets}

abbrev strict : AuthAttemptConfig
strict = record default_config { max_failures_before_lockout = 1 }

abbrev locked : AuthAttemptTracker
locked = (record_failure "ip:a" (10 * second) (new strict)).0

record_failure-check_example : check "ip:a" (11 * second) locked ≡ (
  locked,
  err (record {
    retry_after = 10 * second + 2 * second - 11 * second;
    failures = failures "ip:a" locked;
  }),
)
unfolding record_failure entry counted engage is_stale compute_lockout new lookup insert remove
    String_discrete
record_failure-check_example =
    record_failure-check "ip:a" (10 * second) (2 * second) (11 * second) (new strict) locked refl
      (omega arith)

abbrev long : AuthAttemptConfig
long = record strict { base_lockout = 1000 * second }

abbrev locked_long : AuthAttemptTracker
locked_long = (record_failure "ip:a" (10 * second) (new long)).0

lockout_forgets_example :
    let after = (check "ip:a" (2000 * second) locked_long).0 in
    (failures "ip:a" after ≡ failures "ip:a" locked_long)
    × (failures "ip:a" ((record_failure "ip:a" (2000 * second) after).0) ≡ 1)
unfolding record_failure entry counted engage is_stale compute_lockout new lookup insert remove
    String_discrete
lockout_forgets_example =
    lockout_forgets "ip:a" (10 * second) (1000 * second) (2000 * second) (new long) locked_long refl
      (omega arith) (omega arith)

abbrev intruder : NewBlocklistEntry
intruder = record { host_device_id = 7; subject_type = ip; subject_hash = "aa" }

abbrev calls : List Call
calls = add_entry 5 intruder ∷ add_entry 6 intruder ∷ take_off 7 1 ∷ list 7 ∷ []

answers_as_scanned_example :
    answers calls new_blocklist ≡ scanned_answers calls (record { next_id = 0; entries = [] })
answers_as_scanned_example = answers_as_scanned calls (omega arith)
