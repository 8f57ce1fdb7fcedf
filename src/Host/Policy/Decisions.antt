-- ===== src/Host/Policy/Decisions.antt =====
-- When the host accepts a session, and how often one code serves.
use remotelink.Prelude.{
  ℕ, ◌+◌, ◌≤◌, ◌≡◌, ◌≢◌, ◌<◌, ◌++◌, Bool, true, false, not, if◌then◌else◌, Bool-cases, Option, none,
  some, List, [], ◌∷◌, ok, arith, Option-cases, Result-cases, inl, inr,
}
use remotelink.Protocol.{SessionMode}
use remotelink.Auth.Crypto.{Crypto}
use remotelink.Auth.Otp.{
  OtpHash, OtpRecord, verify, verify_otp, verify_and_consume, is_expired, hash_otp_with_salt,
  hash_otp_unkeyed, otp_hash_domain,
}
use remotelink.Auth.Identity.{SessionBindKey, authorize_mode_a}
use remotelink.Host.Policy.{
  HostAuthService, ActiveOtpWindow, SessionAcceptDecision, allow, policy_allows_mode,
  decide_confirm, consume_otp, ask_for_code, try_code, decide_mode, decide_session_accept, trimmed,
}

-- The user has agreed, or is not asked.
unfoldable pub agreed : Option Bool → HostAuthService → Bool
agreed (some true) s = true
agreed _ s = not s.config.confirm_sessions

-- The digest of the stored hash is that of the code.
unfoldable pub IsDigestOf : Crypto → List ℕ → List ℕ → OtpHash → Type 0
IsDigestOf crypto code pepper hash = hash.digest ≡ (
    if hash.keyed
    then crypto.hmac pepper (otp_hash_domain ++ (hash.salt ++ code))
    else crypto.sha256 (otp_hash_domain ++ code))

-- The code is good for the record at that time: not used, not expired, and of the record's digest.
pub record Fits (crypto : Crypto) (code pepper : List ℕ) (now : ℕ) (r : OtpRecord) : Type 0 where
  pub unused : r.consumed ≡ false
  pub unexpired : now < r.expires_at_unix
  pub matches : IsDigestOf crypto code pepper r.hash

-- What a session of each mode has to bring: nothing with a password, the host's secret and its leave
-- for unattended access, and a code that fits the shown one.
unfoldable pub Grounds : Crypto → SessionMode → Option (List ℕ) → ℕ → HostAuthService → Type 0
Grounds crypto SessionMode.password otp_code now s = Unit {0}
Grounds crypto SessionMode.unattended otp_code now s =
    (s.config.unattended_enabled ≡ true) × (s.host_secret ≢ none)
Grounds crypto SessionMode.otp otp_code now s =
    (w : ActiveOtpWindow) × (s.active_otp ≡ some w)
    × Fits crypto (trimmed otp_code) s.otp_pepper now w.otp_record

module _ (crypto : Crypto) where
  verify_otp-IsDigestOf :
      (code pepper : List ℕ) (hash : OtpHash)
      → verify_otp crypto code pepper hash ≡ ok tt
      → IsDigestOf crypto code pepper hash
  unfolding verify_otp IsDigestOf hash_otp_with_salt hash_otp_unkeyed
  verify_otp-IsDigestOf code pepper hash e = elim (Bool-cases hash.keyed) [
    | inl keyed ↦
        let digest = crypto.hmac pepper (otp_hash_domain ++ (hash.salt ++ code)) in
        ground (arith, e, keyed, crypto.ct_eq_iff digest hash.digest)
    | inr unkeyed ↦
        let digest = crypto.sha256 (otp_hash_domain ++ code) in
        ground (arith, e, unkeyed, crypto.ct_eq_iff digest hash.digest)
  ]

  verify-Fits :
      (code pepper : List ℕ) (now : ℕ) (r : OtpRecord)
      → verify crypto code pepper now r ≡ ok tt
      → Fits crypto code pepper now r
  unfolding verify is_expired
  verify-Fits code pepper now r e = record {
    unused = ground (arith, e);
    unexpired = ground (arith, e);
    matches = verify_otp-IsDigestOf code pepper r.hash (ground (arith, e));
  }

  try_code-allow :
      (code : List ℕ) (now : ℕ) (s : HostAuthService) (key : Option SessionBindKey)
      → (try_code crypto code now s).1 ≡ allow key
      → (w : ActiveOtpWindow) × (s.active_otp ≡ some w)
        × (verify crypto code s.otp_pepper now w.otp_record ≡ ok tt)
        × (((try_code crypto code now s).0).active_otp ≡ none)
  unfolding try_code consume_otp authorize_mode_a verify_and_consume
  try_code-allow code now s key e = elim (Option-cases s.active_otp) [
    | inl gone ↦ absurd (ground (arith, gone))
    | inr (w, there) ↦ elim (Result-cases (verify crypto code s.otp_pepper now w.otp_record)) [
      | inr (error, refused) ↦ absurd (ground (arith, there, refused))
      | inl (_, fits) ↦ (w, there, fits, ground (arith, there, fits))
    ]
  ]

  -- A session is accepted only with the user's agreement, where the host asks for it, and on the
  -- grounds that its mode calls for: for unattended access the host's secret and its leave, for a
  -- one-time code that the host shows one, which is not used and expires after now, and whose stored
  -- digest is the HMAC under the host's pepper (without a key, the SHA-256) of the domain, the salt
  -- and the session's trimmed code (without a key, of the domain and the code).
  -- With a password the mode itself calls for nothing.
  pub decide_session_accept-allow :
      (mode : SessionMode) (otp_code : Option (List ℕ)) (user_accepted : Option Bool) (now : ℕ)
      (s : HostAuthService) (key : Option SessionBindKey)
      → (decide_session_accept crypto mode otp_code user_accepted now s).1 ≡ allow key
      → (agreed user_accepted s ≡ true) × Grounds crypto mode otp_code now s
  unfolding decide_session_accept decide_confirm agreed Grounds decide_mode policy_allows_mode
  decide_session_accept-allow SessionMode.password otp_code user_accepted now s key e =
      (ground arith, tt)
  decide_session_accept-allow SessionMode.unattended otp_code user_accepted now s key e =
      (ground arith, (ground arith, λ p. ground (arith, p)))
  decide_session_accept-allow SessionMode.otp otp_code user_accepted now s key e =
      let (w, there, fits, _) = try_code-allow (trimmed otp_code) now s key (ground arith) in
      (ground arith, (w, there, verify-Fits (trimmed otp_code) s.otp_pepper now w.otp_record fits))

  -- One, if the call is answered with leave for a session with a one-time code
  unfoldable pub admitted : SessionMode → SessionAcceptDecision → ℕ
  admitted SessionMode.otp (allow key) = 1
  admitted _ _ = 0

  -- A question to the policy: the mode, the code, the user's answer and the time
  abbrev Question : Type 0
  Question = SessionMode × Option (List ℕ) × Option Bool × ℕ

  -- How many sessions with a one-time code the answers to a series of questions admit
  unfoldable pub admissions : List Question → HostAuthService → ℕ
  unfolding admitted
  admissions [] s = 0
  admissions ((mode, code, answer, now) ∷ qs) s =
      let (s', decision) = decide_session_accept crypto mode code answer now s in
      admitted mode decision + admissions qs s'

  -- One, while a code is shown
  abbrev shown : Option ActiveOtpWindow → ℕ
  shown none = 0
  shown (some w) = 1

  decide-shown :
      (mode : SessionMode) (code : Option (List ℕ)) (answer : Option Bool) (now : ℕ)
      (s : HostAuthService)
      → let (s', decision) = decide_session_accept crypto mode code answer now s in
        admitted mode decision + shown s'.active_otp ≤ shown s.active_otp
  unfolding admitted decide_session_accept decide_mode try_code consume_otp ask_for_code
  decide-shown SessionMode.password code answer now s = ground arith
  decide-shown SessionMode.unattended code answer now s = ground arith
  decide-shown SessionMode.otp code answer now s = ground arith

  admissions-shown :
      (qs : List Question) (s : HostAuthService) → admissions qs s ≤ shown s.active_otp
  unfolding admissions
  admissions-shown [] s = omega arith
  admissions-shown ((mode, code, answer, now) ∷ qs) s =
      let s' = (decide_session_accept crypto mode code answer now s).0 in
      omega (arith, decide-shown mode code answer now s, admissions-shown qs s')

  shown-le_one : (o : Option ActiveOtpWindow) → shown o ≤ 1
  shown-le_one none = omega arith
  shown-le_one (some w) = omega arith

  -- A code that the host shows admits one session at most: until a code is minted again, the answers
  -- to any series of questions admit at most one session with a one-time code.
  pub admissions-le_one : (qs : List Question) (s : HostAuthService) → admissions qs s ≤ 1
  admissions-le_one qs s = omega (arith, admissions-shown qs s, shown-le_one s.active_otp)
