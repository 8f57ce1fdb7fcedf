-- ===== src/Host/Policy.antt =====
-- The host's session policy (apps/host/src/policy.rs): the one-time code that is shown, unattended
-- access, and the answer to an incoming session. Codes are lists of code points, times Unix seconds.
pub mod Decisions
pub mod Authorize
use remotelink.Prelude.{
  ℕ, ◌+◌, min, max, ◌≡◌, Bool, true, false, not, ◌&&◌, Option, none, some, List, [], ◌∷◌, String,
  Result, ok, err, if◌then◌else◌,
}
use remotelink.Text.Trim.{trim}
use remotelink.Protocol.{SessionMode, RejectReason}
use remotelink.Auth.Crypto.{Crypto}
use remotelink.Auth.Otp.{
  OtpError, OtpHash, OtpRecord, generate_otp_with_rng, hash_otp_with_salt, is_expired,
  new as new_record,
}
use remotelink.Auth.Identity.{
  HostSecret, ChallengeNonce, SessionBindKey, AuthError, authorize_mode_a, authorize_mode_b,
}

abbrev u64_max : ℕ
u64_max = 18446744073709551615

pub record HostLocalConfig : Type 0 where
  pub unattended_enabled : Bool
  pub confirm_sessions : Bool
  pub otp_digits : ℕ
  pub otp_ttl_secs : ℕ

abbrev pub default_local_config : HostLocalConfig
default_local_config = record {
  unattended_enabled = false;
  confirm_sessions = false;
  otp_digits = 6;
  otp_ttl_secs = 900;
}

pub record ActiveOtpWindow : Type 0 where
  pub otp_record : OtpRecord
  pub hash : OtpHash
  pub expires_at_unix : ℕ

pub data ConfirmDecision : Type 0 where
  auto_accept : ConfirmDecision
  accepted : ConfirmDecision
  denied : ConfirmDecision
  pending : ConfirmDecision

pub data PolicyError : Type 0 where
  unattended_disabled : PolicyError
  unattended_secret_missing : PolicyError
  no_active_otp : PolicyError
  auth : AuthError → PolicyError

pub data SessionAcceptDecision : Type 0 where
  allow : Option SessionBindKey → SessionAcceptDecision
  need_confirm : SessionAcceptDecision
  need_otp_code : SessionAcceptDecision
  deny : RejectReason → SessionAcceptDecision

pub record HostAuthService : Type 0 where
  pub config : HostLocalConfig
  pub otp_pepper : List ℕ
  pub host_secret : Option HostSecret
  pub active_otp : Option ActiveOtpWindow
  pub last_otp_code : Option (List ℕ)

unfoldable pub new : HostLocalConfig → List ℕ → HostAuthService
new config pepper = record {
  config = config;
  otp_pepper = pepper;
  host_secret = none;
  active_otp = none;
  last_otp_code = none;
}

unfoldable pub set_unattended_enabled : Bool → HostAuthService → HostAuthService
set_unattended_enabled enabled s = record s {
  config = record s.config { unattended_enabled = enabled };
}

unfoldable pub set_confirm_sessions : Bool → HostAuthService → HostAuthService
set_confirm_sessions enabled s = record s {
  config = record s.config { confirm_sessions = enabled };
}

unfoldable pub set_host_secret : HostSecret → HostAuthService → HostAuthService
set_host_secret secret s = record s { host_secret = some secret }

-- The secret has been drawn.
unfoldable pub enable_unattended_with_generated_secret :
    HostSecret → HostAuthService → HostAuthService
enable_unattended_with_generated_secret secret s = record s {
  host_secret = some secret;
  config = record s.config { unattended_enabled = true };
}

abbrev is_some : {A : Type 0} → Option A → Bool
is_some none = false
is_some (some _) = true

unfoldable pub policy_allows_mode : SessionMode → HostAuthService → Result (Unit {0}) PolicyError
policy_allows_mode SessionMode.otp s = ok tt
policy_allows_mode SessionMode.password s = ok tt
policy_allows_mode SessionMode.unattended s =
    if s.config.unattended_enabled
    then if is_some s.host_secret then ok tt else err unattended_secret_missing
    else err unattended_disabled

-- The answer, once one is needed
abbrev confirm_answer : Option Bool → ConfirmDecision
confirm_answer none = pending
confirm_answer (some true) = accepted
confirm_answer (some false) = denied

unfoldable pub decide_confirm : Option Bool → HostAuthService → ConfirmDecision
decide_confirm user_accepted s =
    if not s.config.confirm_sessions then auto_accept else confirm_answer user_accepted

abbrev is_empty : List ℕ → Bool
is_empty [] = true
is_empty (c ∷ cs) = false

-- What is shown and stored for a code that has been hashed
abbrev with_window : List ℕ → OtpHash → ℕ → HostAuthService → HostAuthService
with_window code hash expires s = record s {
  last_otp_code = some code;
  active_otp =
      some
        (record { otp_record = new_record hash expires; hash = hash; expires_at_unix = expires });
}

-- Without a code, the window has to be there still.
unfoldable pub ask_for_code : ℕ → HostAuthService → SessionAcceptDecision
unfolding is_expired
ask_for_code now s = elim s.active_otp [
  | none ↦ deny RejectReason.auth
  | some w ↦ if is_expired now w.otp_record then deny RejectReason.auth else need_otp_code
]

abbrev pub trimmed : Option (List ℕ) → List ℕ
trimmed none = []
trimmed (some code) = trim code

module _ (crypto : Crypto) where
  -- The draws of the digits and the salt are arguments.
  unfoldable pub mint_otp :
      ℕ → (ℕ → ℕ) → List ℕ → HostAuthService → HostAuthService × Result (List ℕ) OtpError
  unfolding new_record
  mint_otp now draw salt s =
      let expires = min (now + max s.config.otp_ttl_secs 1) u64_max in
      elim (generate_otp_with_rng s.config.otp_digits draw) [
        | err e ↦ (s, err e)
        | ok code ↦ elim (hash_otp_with_salt crypto code s.otp_pepper salt) [
          | err e ↦ (s, err e)
          | ok hash ↦ (with_window code hash expires s, ok code)
        ]
      ]

  -- Once the code has been checked against the window
  abbrev consumed_window :
      ActiveOtpWindow
      → OtpRecord × Result SessionBindKey AuthError
      → HostAuthService
      → HostAuthService × Result SessionBindKey PolicyError
  consumed_window w (r, ok key) s = (record s { active_otp = none }, ok key)
  consumed_window w (r, err e) s =
      (record s { active_otp = some (record w { otp_record = r }) }, err (auth e))

  unfoldable pub consume_otp :
      List ℕ → ℕ → HostAuthService → HostAuthService × Result SessionBindKey PolicyError
  consume_otp code now s = elim s.active_otp [
    | none ↦ (s, err no_active_otp)
    | some w ↦ consumed_window w (authorize_mode_a crypto code s.otp_pepper now w.otp_record) s
  ]

  -- `none` is the panic on a field of more than 32 bits' length.
  unfoldable pub verify_mode_b :
      ChallengeNonce
      → List ℕ
      → List ℕ
      → List ℕ
      → List ℕ
      → HostAuthService
      → Option (Result SessionBindKey PolicyError)
  unfolding policy_allows_mode
  verify_mode_b nonce session_id fp_host fp_viewer mac s =
      elim (policy_allows_mode SessionMode.unattended s) [
        | err e ↦ some (err e)
        | ok _ ↦ elim s.host_secret [
          | none ↦ some (err unattended_secret_missing)
          | some secret ↦
              elim (authorize_mode_b crypto secret nonce session_id fp_host fp_viewer mac) [
                | none ↦ none
                | some result ↦ elim result [ ok key ↦ some (ok key) | err e ↦ some (err (auth e)) ]
              ]
        ]
      ]

  -- With a code, it is consumed.
  unfoldable pub try_code : List ℕ → ℕ → HostAuthService → HostAuthService × SessionAcceptDecision
  unfolding consume_otp
  try_code code now s =
      let (s', result) = consume_otp code now s in
      elim result [ ok key ↦ (s', allow (some key)) | err _ ↦ (s', deny RejectReason.auth) ]

  unfoldable pub decide_mode :
      SessionMode → Option (List ℕ) → ℕ → HostAuthService → HostAuthService × SessionAcceptDecision
  unfolding policy_allows_mode ask_for_code try_code
  decide_mode SessionMode.unattended otp_code now s =
      elim (policy_allows_mode SessionMode.unattended s) [
        | ok _ ↦ (s, allow none)
        | err unattended_disabled ↦ (s, deny RejectReason.policy)
        | err unattended_secret_missing ↦ (s, deny RejectReason.policy)
        | err _ ↦ (s, deny RejectReason.auth)
      ]
  decide_mode SessionMode.password otp_code now s = (s, allow none)
  decide_mode SessionMode.otp otp_code now s =
      if is_empty (trimmed otp_code)
      then (s, ask_for_code now s)
      else try_code (trimmed otp_code) now s

  -- The server's prefilter is not looked at.
  unfoldable pub decide_session_accept :
      SessionMode
      → Option (List ℕ)
      → Option Bool
      → ℕ
      → HostAuthService
      → HostAuthService × SessionAcceptDecision
  unfolding decide_confirm decide_mode
  decide_session_accept mode otp_code user_accepted now s = elim (decide_confirm user_accepted s) [
    | denied ↦ (s, deny RejectReason.policy)
    | pending ↦ (s, need_confirm)
    | auto_accept ↦ decide_mode mode otp_code now s
    | accepted ↦ decide_mode mode otp_code now s
  ]
