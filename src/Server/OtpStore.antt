-- ===== src/Server/OtpStore.antt =====
-- The server's store of one-time codes (apps/server/src/otp.rs). Instants are nanoseconds since 1970;
-- a session's pepper is an argument. The lock is never poisoned: no call panics while it holds it.
pub mod Row
pub mod Refinement
pub mod Histories
pub mod Runs
pub mod Guesses
pub mod Sessions
use remotelink.Prelude.{
  ℕ, ◌+◌, ◌-◌, ◌/◌, ◌%◌, ◌^◌, ◌≡◌, min, Bool, true, false, not, ◌&&◌, ◌||◌, Option, none, some,
  List, [], ◌∷◌, ◌++◌, String, String_discrete, ℕ_discrete, Result, ok, err, ltb, leb, ◌==◌,
  if◌then◌else◌,
}
use remotelink.Map.{Map, lookup, insert, remove, remove_all}
use remotelink.Auth.Crypto.{Crypto}
use remotelink.Auth.Otp.{OtpHash, verify_otp}

abbrev pub default_otp_ttl_secs : ℕ
default_otp_ttl_secs = 900

abbrev pub max_otp_ttl_secs : ℕ
max_otp_ttl_secs = 3600

abbrev pub max_otp_attempts : ℕ
max_otp_attempts = 5

abbrev u32_max : ℕ
u32_max = 4294967295

pub record StoredOtp : Type 0 where
  pub id : ℕ
  pub host_device_id : ℕ
  pub hash : OtpHash
  pub expires_at : ℕ
  pub consumed_at : Option ℕ
  pub session_intent_id : Option String
  pub attempts : ℕ
  pub created_at : ℕ

pub data OtpPrefilterResult : Type 0 where
  bound : OtpPrefilterResult
  no_active_otp : OtpPrefilterResult
  reject : OtpPrefilterResult

pub data OtpStoreError : Type 0 where
  not_found : OtpStoreError
  unavailable : OtpStoreError
  bad_ttl : OtpStoreError

pub record MemoryOtpStore : Type 0 where
  pub by_id : Map ℕ StoredOtp
  pub by_host : Map ℕ (List ℕ)
  pub next_id : ℕ

unfoldable pub new : MemoryOtpStore
new = record { by_id = []; by_host = []; next_id = 0 }

-- `unwrap_or_default`
abbrev pub or_empty : Option (List ℕ) → List ℕ
or_empty none = []
or_empty (some ids) = ids

abbrev pub is_some : {A : Type 0} → Option A → Bool
is_some none = false
is_some (some _) = true

-- `timestamp()`: whole seconds
abbrev pub timestamp : ℕ → ℕ
timestamp t = t / 1000000000

-- `fetch_add(1) + 1` on the bits of an i64, as a release build computes it. With overflow checks the
-- addition panics at the largest i64.
abbrev pub next : ℕ → ℕ
next n = (n + 1) % 2 ^ 64

abbrev pub new_row : ℕ → ℕ → OtpHash → ℕ → ℕ → StoredOtp
new_row id host hash expires_at now = record {
  id = id;
  host_device_id = host;
  hash = hash;
  expires_at = expires_at;
  consumed_at = none;
  session_intent_id = none;
  attempts = 0;
  created_at = now;
}

unfoldable pub store_hash : ℕ → OtpHash → ℕ → ℕ → MemoryOtpStore → MemoryOtpStore × StoredOtp
store_hash host hash expires_at now s =
    let id = next s.next_id in
    let row = new_row id host hash expires_at now in
    let old_ids = or_empty (lookup ℕ_discrete host s.by_host) in
    let by_host = remove ℕ_discrete host s.by_host in
    let by_id = remove_all ℕ_discrete old_ids s.by_id in
    (
      record {
        by_id = insert ℕ_discrete id row by_id;
        by_host = insert ℕ_discrete host (id ∷ []) by_host;
        next_id = id;
      },
      row,
    )

unfoldable pub store_from_parts :
    ℕ → List ℕ → List ℕ → Bool → ℕ → ℕ → MemoryOtpStore → MemoryOtpStore × StoredOtp
unfolding store_hash
store_from_parts host digest salt keyed expires_at now =
    store_hash host (record { digest = digest; salt = salt; keyed = keyed }) expires_at now

-- What the check of one row comes to: it is passed over, it is refused as it stands, or it is
-- answered after the row has changed.
pub data Checked : Type 0 where
  passed_over : Checked
  refused : Checked
  answered : StoredOtp → OtpPrefilterResult → Checked

-- `ids.into_iter().rev()`
unfoldable pub reversed : List ℕ → List ℕ
reversed [] = []
reversed (id ∷ ids) = reversed ids ++ (id ∷ [])

module _ (crypto : Crypto) where
  unfoldable pub check_row : List ℕ → List ℕ → String → ℕ → StoredOtp → Checked
  check_row code pepper session_id now row =
      if is_some row.consumed_at
      then passed_over
      else if leb row.expires_at now
      then passed_over
      else if leb max_otp_attempts row.attempts
      then refused
      else (let row = record row { attempts = min (row.attempts + 1) u32_max } in
          if leb (timestamp row.expires_at) (timestamp now)
          then answered row reject
          else elim (verify_otp crypto code pepper row.hash) [
            | ok _ ↦
                answered
                  (record row { session_intent_id = some session_id; attempts = row.attempts - 1 })
                  bound
            | err _ ↦ answered row reject
          ])

  unfoldable pub bind_loop :
      List ℕ → List ℕ → String → ℕ → List ℕ → MemoryOtpStore → MemoryOtpStore × OtpPrefilterResult
  unfolding check_row
  bind_loop code pepper session_id now [] s = (s, no_active_otp)
  bind_loop code pepper session_id now (id ∷ ids) s =
      let rest = bind_loop code pepper session_id now ids s in
      elim (lookup ℕ_discrete id s.by_id) [
        | none ↦ rest
        | some row ↦ elim (check_row code pepper session_id now row) [
          | passed_over ↦ rest
          | refused ↦ (s, reject)
          | answered row' result ↦ (record s { by_id = insert ℕ_discrete id row' s.by_id }, result)
        ]
      ]

  unfoldable pub prefilter_bind :
      ℕ → List ℕ → List ℕ → String → ℕ → MemoryOtpStore → MemoryOtpStore × OtpPrefilterResult
  unfolding bind_loop reversed
  prefilter_bind host code pepper session_id now s = elim (lookup ℕ_discrete host s.by_host) [
    | none ↦ (s, no_active_otp)
    | some ids ↦ bind_loop code pepper session_id now (reversed ids) s
  ]

abbrev pub is_text : String → Option String → Bool
is_text a none = false
is_text a (some b) = elim (String_discrete a b) [ yes _ ↦ true | no _ ↦ false ]

unfoldable pub consume_loop :
    String → ℕ → List ℕ → MemoryOtpStore → MemoryOtpStore × Result (Unit {0}) OtpStoreError
consume_loop session_id now [] s = (s, err not_found)
consume_loop session_id now (id ∷ ids) s =
    let rest = consume_loop session_id now ids s in
    elim (lookup ℕ_discrete id s.by_id) [
      | none ↦ rest
      | some row ↦
          if is_text session_id row.session_intent_id
          then if is_some row.consumed_at
            then (s, err unavailable)
            else if leb row.expires_at now
            then (s, err unavailable)
            else (
              record s {
                by_id = insert ℕ_discrete id (record row { consumed_at = some now }) s.by_id;
              },
              ok tt,
            )
          else rest
    ]

unfoldable pub consume_for_session :
    ℕ → String → ℕ → MemoryOtpStore → MemoryOtpStore × Result (Unit {0}) OtpStoreError
unfolding consume_loop
consume_for_session host session_id now s =
    consume_loop session_id now (or_empty (lookup ℕ_discrete host s.by_host)) s

unfoldable pub first_active : ℕ → List ℕ → MemoryOtpStore → Option StoredOtp
first_active now [] s = none
first_active now (id ∷ ids) s =
    let rest = first_active now ids s in
    elim (lookup ℕ_discrete id s.by_id) [
      | none ↦ rest
      | some row ↦
          if not (is_some row.consumed_at) && ltb now row.expires_at then some row else rest
    ]

unfoldable pub active_for_host : ℕ → ℕ → MemoryOtpStore → Option StoredOtp
unfolding first_active reversed
active_for_host host now s = elim (lookup ℕ_discrete host s.by_host) [
  | none ↦ none
  | some ids ↦ first_active now (reversed ids) s
]

unfoldable pub get : ℕ → MemoryOtpStore → Option StoredOtp
get id s = lookup ℕ_discrete id s.by_id

abbrev or_default_ttl : Option ℕ → ℕ
or_default_ttl none = default_otp_ttl_secs
or_default_ttl (some secs) = secs

-- `OtpMintRequest::ttl_secs`
unfoldable pub ttl_secs : Option ℕ → Result ℕ OtpStoreError
ttl_secs expires_in_secs =
    let secs = or_default_ttl expires_in_secs in
    if (secs == 0) || ltb max_otp_ttl_secs secs then err bad_ttl else ok secs
