-- ===== src/Tests/Auth.antt =====
-- The authentication properties at concrete codes, ids and challenges.
use remotelink.Prelude.{
  ℕ, ◌<◌, ◌≤◌, ◌≡◌, ◌≢◌, ◌⊎◌, refl, true, false, List, [], ◌∷◌, ◌++◌, ok, arith,
}
use remotelink.Text.{all_digits, is_ascii_digit}
use remotelink.Auth.Crypto.{Crypto, plain_crypto, bytes_eq, bytes_eq_iff}
use remotelink.Auth.Transcript.{
  ChallengeTranscript, encode, verify_binds, verify_challenge_mac, compute_challenge_mac,
  append_fields, append_lp, be_bytes, mac_domain,
}
use remotelink.Auth.Otp.{OtpHash, OtpRecord, otp_hash_domain}
use remotelink.Auth.Otp.Laws.{acceptances, acceptances-le_one}
use remotelink.Auth.DeviceId.{
  DevicePublicId, parse, validate_luhn, luhn_digit, luhn_loop, generate_with_rng,
}
use remotelink.Auth.DeviceId.Luhn.{validate_luhn_single}
use remotelink.Auth.DeviceId.RoundTrip.{WellFormed, generate-parse}

abbrev challenge : ChallengeTranscript
challenge = record {
  session_id = b's' ∷ [];
  nonce = 1 ∷ 2 ∷ [];
  fingerprint_host = 3 ∷ [];
  fingerprint_viewer = [];
}

abbrev challenge_bytes : List ℕ
challenge_bytes =
    mac_domain
    ++ (0 ∷ 0 ∷ 0 ∷ 1 ∷ b's' ∷ 0 ∷ 0 ∷ 0 ∷ 2 ∷ 1 ∷ 2 ∷ 0 ∷ 0 ∷ 0 ∷ 1 ∷ 3 ∷ 0 ∷ 0 ∷ 0 ∷ 0 ∷ [])

-- A code of 32 bytes that tells no messages apart.
abbrev blind_crypto : Crypto
blind_crypto = record {
  hmac = λ key msg.
      0 ∷ 0 ∷ 0 ∷ 0 ∷ 0 ∷ 0 ∷ 0 ∷ 0 ∷ 0 ∷ 0 ∷ 0 ∷ 0 ∷ 0 ∷ 0 ∷ 0 ∷ 0 ∷ 0 ∷ 0 ∷ 0 ∷ 0 ∷ 0 ∷ 0 ∷ 0 ∷ 0
      ∷ 0 ∷ 0 ∷ 0 ∷ 0 ∷ 0 ∷ 0 ∷ 0 ∷ 0 ∷ [];
  sha256 = λ msg. msg;
  ct_eq = bytes_eq;
  ct_eq_iff = bytes_eq_iff;
}

abbrev other_challenge : ChallengeTranscript
other_challenge = record challenge { nonce = 1 ∷ 3 ∷ [] }

verify_binds_example :
    (challenge ≡ other_challenge)
    ⊎ ((m : List ℕ) × (m' : List ℕ) × (m ≢ m')
        × (blind_crypto.hmac (7 ∷ []) m ≡ blind_crypto.hmac (7 ∷ []) m'))
unfolding encode append_fields append_lp be_bytes mac_domain verify_challenge_mac
    compute_challenge_mac bytes_eq
verify_binds_example =
    verify_binds blind_crypto (7 ∷ []) challenge other_challenge (blind_crypto.hmac [] []) refl refl

abbrev code : List ℕ
code = b'1' ∷ b'2' ∷ b'3' ∷ b'4' ∷ b'5' ∷ b'6' ∷ []

abbrev salt : List ℕ
salt = 1 ∷ 2 ∷ 3 ∷ 4 ∷ 5 ∷ 6 ∷ 7 ∷ 8 ∷ 9 ∷ 10 ∷ 11 ∷ 12 ∷ 13 ∷ 14 ∷ 15 ∷ 16 ∷ []

abbrev code_hash : OtpHash
code_hash = record { digest = 9 ∷ (otp_hash_domain ++ (salt ++ code)); salt = salt; keyed = true }

abbrev code_record : OtpRecord
code_record = record { hash = code_hash; expires_at_unix = 100; consumed = false }

acceptances-le_one_example :
    acceptances plain_crypto ((code, 9 ∷ [], 5) ∷ (code, 9 ∷ [], 6) ∷ []) code_record ≤ 1
acceptances-le_one_example =
    acceptances-le_one plain_crypto ((code, 9 ∷ [], 5) ∷ (code, 9 ∷ [], 6) ∷ []) code_record

abbrev id_body : List ℕ
id_body = b'1' ∷ b'0' ∷ b'0' ∷ b'0' ∷ b'0' ∷ b'0' ∷ b'0' ∷ b'0' ∷ []

abbrev device : DevicePublicId
device = record { digits = id_body ++ (b'0' ∷ b'8' ∷ []) }

validate_luhn_single_example : ◌≡◌ {A = ℕ} b'8' b'8'
unfolding validate_luhn luhn_loop luhn_digit all_digits is_ascii_digit
validate_luhn_single_example =
    validate_luhn_single (id_body ++ (b'0' ∷ [])) [] b'8' b'8' (omega arith) refl refl

device-WellFormed : WellFormed device.digits
unfolding validate_luhn luhn_loop luhn_digit all_digits is_ascii_digit
device-WellFormed = record { ten = refl; numeric = refl; checked = refl }

draw_zero : (i n : ℕ) → 0 < n → 0 < n
draw_zero i n lt = lt

generate-parse_example :
    (id : DevicePublicId) × (generate_with_rng (λ i n. 0) ≡ ok id)
    × WellFormed id.digits
    × (parse id.digits ≡ ok id)
generate-parse_example = generate-parse (λ i n. 0) draw_zero
