-- ===== src/Auth/Identity.antt =====
-- The session's authorization and the binding of its identity (packages/auth/src/identity.rs), with
-- the secrets and nonces of packages/auth/src/challenge.rs. Texts are the lists of their bytes. The
-- `expect` on a field of more than 32 bits' length is `none`.
pub mod Binding
pub mod Wire
use remotelink.Prelude.{
  ℕ, ◌<◌, ◌≡◌, not, Bool, true, false, ◌&&◌, Option, none, some, List, [], ◌∷◌, ◌++◌, Result, ok,
  err, ltb, ◌==◌, if◌then◌else◌, length,
}
use remotelink.Auth.Crypto.{Crypto}
use remotelink.Auth.Otp.{OtpError, OtpRecord, validate_otp_format, verify_and_consume}
use remotelink.Auth.Transcript.{
  ChallengeTranscript, MacError, append_fields, compute_challenge_mac, verify_challenge_mac,
}

abbrev pub host_secret_min_len : ℕ
host_secret_min_len = 16

abbrev pub dc_bind_mac_len : ℕ
dc_bind_mac_len = 32

pub record HostSecret : Type 0 where
  pub bytes : List ℕ

pub record ChallengeNonce : Type 0 where
  pub bytes : List ℕ

pub record SessionBindKey : Type 0 where
  pub bytes : List ℕ

-- The errors of this module, one for each text.
pub data AuthError : Type 0 where
  short_host_secret : ℕ → AuthError
  empty_nonce : AuthError
  empty_bind_key : AuthError
  otp : OtpError → AuthError
  challenge : MacError → AuthError
  mac_length : ℕ → AuthError
  mac_mismatch : AuthError
  input_not_allowed : Bool → Bool → AuthError

unfoldable pub new_secret : List ℕ → Result HostSecret AuthError
new_secret bytes =
    if ltb (length bytes) host_secret_min_len
    then err (short_host_secret (length bytes))
    else ok (record { bytes = bytes })

abbrev is_empty : List ℕ → Bool
is_empty [] = true
is_empty (b ∷ bs) = false

unfoldable pub nonce_from_bytes : List ℕ → Result ChallengeNonce AuthError
nonce_from_bytes bytes = if is_empty bytes then err empty_nonce else ok (record { bytes = bytes })

unfoldable pub new_bind_key : List ℕ → Result SessionBindKey AuthError
new_bind_key bytes = if is_empty bytes then err empty_bind_key else ok (record { bytes = bytes })

-- "remotelink-otp-bind-key-v1"
unfoldable pub otp_bind_key_salt : List ℕ
otp_bind_key_salt =
    b'r' ∷ b'e' ∷ b'm' ∷ b'o' ∷ b't' ∷ b'e' ∷ b'l' ∷ b'i' ∷ b'n' ∷ b'k' ∷ b'-' ∷ b'o' ∷ b't' ∷ b'p'
    ∷ b'-' ∷ b'b' ∷ b'i' ∷ b'n' ∷ b'd' ∷ b'-' ∷ b'k' ∷ b'e' ∷ b'y' ∷ b'-' ∷ b'v' ∷ b'1' ∷ []

-- "remotelink-dc-identity-bind-v1"
unfoldable pub dc_bind_domain : List ℕ
dc_bind_domain =
    b'r' ∷ b'e' ∷ b'm' ∷ b'o' ∷ b't' ∷ b'e' ∷ b'l' ∷ b'i' ∷ b'n' ∷ b'k' ∷ b'-' ∷ b'd' ∷ b'c' ∷ b'-'
    ∷ b'i' ∷ b'd' ∷ b'e' ∷ b'n' ∷ b't' ∷ b'i' ∷ b't' ∷ b'y' ∷ b'-' ∷ b'b' ∷ b'i' ∷ b'n' ∷ b'd'
    ∷ b'-' ∷ b'v' ∷ b'1' ∷ []

pub record IdentityBindState : Type 0 where
  pub session_id : List ℕ
  pub session_authorized : Bool
  pub identity_bound : Bool

unfoldable pub new : List ℕ → IdentityBindState
new session_id = record {
  session_id = session_id;
  session_authorized = false;
  identity_bound = false;
}

unfoldable pub input_allowed : IdentityBindState → Bool
input_allowed s = s.identity_bound && s.session_authorized

unfoldable pub input_gate_error : IdentityBindState → AuthError
input_gate_error s = input_not_allowed s.identity_bound s.session_authorized

unfoldable pub mark_authorized : IdentityBindState → IdentityBindState
mark_authorized s = record s { session_authorized = true }

unfoldable pub mark_identity_bound : IdentityBindState → IdentityBindState
mark_identity_bound s = record s { identity_bound = true }

unfoldable pub reset_flags : IdentityBindState → IdentityBindState
reset_flags s = record s { session_authorized = false; identity_bound = false }

pub record DcIdentityChallenge : Type 0 where
  pub nonce : List ℕ

pub record DcIdentityResponse : Type 0 where
  pub mac : List ℕ

unfoldable pub encode_dc_bind_message : ChallengeTranscript → Option (List ℕ)
unfolding append_fields
encode_dc_bind_message t = append_fields dc_bind_domain t

-- The fields that a message for the session binds
abbrev pub transcript : List ℕ → List ℕ → List ℕ → List ℕ → ChallengeTranscript
transcript session_id nonce fingerprint_host fingerprint_viewer = record {
  session_id = session_id;
  nonce = nonce;
  fingerprint_host = fingerprint_host;
  fingerprint_viewer = fingerprint_viewer;
}

module _ (crypto : Crypto) where
  unfoldable pub from_mode_a_otp : List ℕ → Result SessionBindKey AuthError
  unfolding validate_otp_format
  from_mode_a_otp code = elim (validate_otp_format code) [
    | ok _ ↦ ok (record { bytes = crypto.hmac otp_bind_key_salt code })
    | err e ↦ err (otp e)
  ]

  unfoldable pub from_mode_b_secret : HostSecret → SessionBindKey
  from_mode_b_secret secret = record { bytes = secret.bytes }

  unfoldable pub compute_dc_bind_mac : SessionBindKey → ChallengeTranscript → Option (List ℕ)
  unfolding encode_dc_bind_message
  compute_dc_bind_mac key t = elim (encode_dc_bind_message t) [
    | none ↦ none
    | some message ↦ some (crypto.hmac key.bytes message)
  ]

  unfoldable pub verify_dc_bind_mac :
      SessionBindKey → ChallengeTranscript → List ℕ → Option (Result (Unit {0}) AuthError)
  unfolding compute_dc_bind_mac
  verify_dc_bind_mac key t presented =
      if not (length presented == dc_bind_mac_len)
      then some (err (mac_length (length presented)))
      else elim (compute_dc_bind_mac key t) [
        | none ↦ none
        | some expected ↦ some (if crypto.ct_eq expected presented then ok tt else err mac_mismatch)
      ]

  unfoldable pub respond_dc_challenge :
      SessionBindKey → List ℕ → DcIdentityChallenge → List ℕ → List ℕ → Option DcIdentityResponse
  unfolding compute_dc_bind_mac
  respond_dc_challenge key session_id c fp_host fp_viewer =
      elim (compute_dc_bind_mac key (transcript session_id c.nonce fp_host fp_viewer)) [
        | none ↦ none
        | some mac ↦ some (record { mac = mac })
      ]

  unfoldable pub complete_dc_bind :
      SessionBindKey
      → DcIdentityChallenge
      → DcIdentityResponse
      → List ℕ
      → List ℕ
      → IdentityBindState
      → Option (IdentityBindState × Result (Unit {0}) AuthError)
  unfolding verify_dc_bind_mac mark_identity_bound
  complete_dc_bind key c response fp_host fp_viewer s =
      elim (verify_dc_bind_mac key (transcript s.session_id c.nonce fp_host fp_viewer)
        response.mac) [
          | none ↦ none
          | some result ↦ elim result [
            | ok _ ↦ some (mark_identity_bound s, ok tt)
            | err e ↦ some (s, err e)
          ]
        ]

  unfoldable pub authorize_mode_a :
      List ℕ → List ℕ → ℕ → OtpRecord → OtpRecord × Result SessionBindKey AuthError
  unfolding verify_and_consume from_mode_a_otp
  authorize_mode_a code pepper now r =
      let (r', result) = verify_and_consume crypto code pepper now r in
      elim result [ ok _ ↦ (r', from_mode_a_otp code) | err e ↦ (r', err (otp e)) ]

  unfoldable pub verify_response :
      HostSecret
      → ChallengeNonce
      → List ℕ
      → List ℕ
      → List ℕ
      → List ℕ
      → Option (Result (Unit {0}) MacError)
  unfolding verify_challenge_mac
  verify_response secret nonce session_id fp_host fp_viewer mac =
      verify_challenge_mac crypto secret.bytes (transcript session_id nonce.bytes fp_host fp_viewer)
        mac

  unfoldable pub respond_to_challenge :
      HostSecret → List ℕ → List ℕ → List ℕ → List ℕ → Option (List ℕ)
  unfolding compute_challenge_mac
  respond_to_challenge secret session_id nonce fp_host fp_viewer =
      compute_challenge_mac crypto secret.bytes (transcript session_id nonce fp_host fp_viewer)

  unfoldable pub authorize_mode_b :
      HostSecret
      → ChallengeNonce
      → List ℕ
      → List ℕ
      → List ℕ
      → List ℕ
      → Option (Result SessionBindKey AuthError)
  unfolding verify_response from_mode_b_secret
  authorize_mode_b secret nonce session_id fp_host fp_viewer mac =
      elim (verify_response secret nonce session_id fp_host fp_viewer mac) [
        | none ↦ none
        | some result ↦ elim result [
          | ok _ ↦ some (ok (from_mode_b_secret secret))
          | err e ↦ some (err (challenge e))
        ]
      ]
