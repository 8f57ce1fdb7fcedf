-- ===== src/Security/AuthAttempts/Lockout.antt =====
-- What a lockout does while it lasts and once it is over.
use remotelink.Prelude.{
  ℕ, ◌+◌, ◌-◌, ◌≡◌, ◌≢◌, ◌<◌, refl, none, some, err, String, String_discrete, arith, Option-cases,
  inl, inr,
}
use remotelink.Map.{lookup}
use remotelink.Map.Laws.{lookup-insert_self, lookup-insert_ne, lookup-remove_ne}
use remotelink.Security.AuthAttempts.{
  AuthAttemptTracker, AttemptRecord, check, record_failure, record_success, failures, entry,
  counted, engage,
}

-- The record that a failure leaves.
pub stored :
    (key : String) (now : ℕ) (t : AuthAttemptTracker)
    → lookup String_discrete key ((record_failure key now t).0).records
      ≡ some ((engage t.config now (counted t.config now (entry key now t))).0)
unfolding record_failure
stored key now t = lookup-insert_self String_discrete key _ t.records

-- What a lockout leaves in the record it is engaged on.
engage-some :
    (t : AuthAttemptTracker) (now d : ℕ) (rec : AttemptRecord)
    → (engage t.config now rec).1 ≡ some d
    → ((engage t.config now rec).0).locked_until ≡ some (now + d)
unfolding engage
engage-some t now d rec e = ground (arith, e)

-- The record on which a failure has reported a lockout.
pub locked_record :
    (key : String) (now d : ℕ) (t t' : AuthAttemptTracker)
    → record_failure key now t ≡ (t', some d)
    → (rec : AttemptRecord) × (lookup String_discrete key t'.records ≡ some rec)
      × (rec.locked_until ≡ some (now + d))
      × (rec.last_failure ≡ now)
      × (t'.config ≡ t.config)
unfolding record_failure engage counted
locked_record key now d t t' e =
    let counted_rec = counted t.config now (entry key now t) in
    (
      (engage t.config now counted_rec).0,
      ground (arith, e, stored key now t),
      engage-some t now d counted_rec (ground (arith, e)),
      ground arith,
      ground (arith, e),
    )

-- A lockout that a failure reports holds for as long as it says: at each time before its end the
-- check of that key refuses, changes nothing, and names the time that is left and the count.
pub record_failure-check :
    (key : String) (now d time : ℕ) (t t' : AuthAttemptTracker)
    → record_failure key now t ≡ (t', some d)
    → time < now + d
    → check key time t'
      ≡ (t', err (record { retry_after = now + d - time; failures = failures key t' }))
unfolding check failures record_failure
record_failure-check key now d time t t' e lt =
    ground
      (arith, e, stored key now t, engage-some t now d (counted t.config now (entry key now t)))

-- The answer of a check depends on the key's own record only.
check_congr :
    (other : String) (time : ℕ) (t t' : AuthAttemptTracker)
    → lookup String_discrete other t'.records ≡ lookup String_discrete other t.records
    → t'.config ≡ t.config
    → (check other time t').1 ≡ (check other time t).1
unfolding check
check_congr other time t t' e c = elim (Option-cases (lookup String_discrete other t.records)) [
  | inl n ↦ rw (check, e, n) refl
  | inr (rec, h) ↦ elim (Option-cases rec.locked_until) [
    | inl u ↦ ground (arith, e, h, u, c)
    | inr (until, u) ↦ ground (arith, e, h, u, c)
  ]
]

check_config :
    (key : String) (now : ℕ) (t : AuthAttemptTracker) → ((check key now t).0).config ≡ t.config
unfolding check
check_config key now t = ground arith

check_keeps :
    (key other : String) (now : ℕ) (t : AuthAttemptTracker)
    → key ≢ other
    → lookup String_discrete other (((check key now t).0).records)
      ≡ lookup String_discrete other t.records
unfolding check
check_keeps key other now t ne = elim (Option-cases (lookup String_discrete key t.records)) [
  | inl n ↦ ground (arith, n)
  | inr (rec, h) ↦ ground (
    arith,
    h,
    lookup-remove_ne String_discrete key other t.records ne,
    lookup-insert_ne String_discrete key other (record rec { locked_until = none }) t.records ne,
  )
]

-- Keys do not share a lockout: a failure, a success or a check of one key leaves the answer to a
-- check of another as it was.
pub check-other_key :
    (key other : String) (now time : ℕ) (t : AuthAttemptTracker)
    → key ≢ other
    → ((check other time ((record_failure key now t).0)).1 ≡ (check other time t).1)
      × ((check other time (record_success key t)).1 ≡ (check other time t).1)
      × ((check other time ((check key now t).0)).1 ≡ (check other time t).1)
unfolding check record_failure record_success
check-other_key key other now time t ne = (
  check_congr other time t ((record_failure key now t).0)
      (lookup-insert_ne String_discrete key other
        ((engage t.config now (counted t.config now (entry key now t))).0) t.records ne)
      refl,
  check_congr other time t (record_success key t)
      (lookup-remove_ne String_discrete key other t.records ne) refl,
  check_congr other time t ((check key now t).0) (check_keeps key other now t ne)
      (check_config key now t),
)
