-- ===== src/Tests/Identity.antt =====
-- The identity's properties at concrete challenges.
use remotelink.Prelude.{
  true, ℕ, ◌≡◌, ◌⊎◌, refl, some, List, [], ◌∷◌, ◌++◌, ok, arith, length, take, length-take,
  length-append,
}
use remotelink.Auth.Crypto.{Crypto, bytes_eq, bytes_eq_iff}
use remotelink.Auth.Hex.{AreBytes}
use remotelink.Auth.Transcript.{
  ChallengeTranscript, append_fields, append_lp, be_bytes, encode, mac_domain,
  compute_challenge_mac, verify_challenge_mac,
}
use remotelink.Auth.Identity.{
  HostSecret, SessionBindKey, IdentityBindState, DcIdentityChallenge, DcIdentityResponse,
  transcript, respond_dc_challenge, complete_dc_bind, compute_dc_bind_mac, verify_dc_bind_mac,
  verify_response, encode_dc_bind_message, dc_bind_domain, new,
}
use remotelink.Auth.Identity.Binding.{
  Collision, challenge_is_no_bind, verify_dc_bind_mac-binds, complete_dc_bind-respond_dc_challenge,
}
use remotelink.Auth.Identity.Wire.{response, encode_response, parse_dc_json}
use remotelink.Auth.Identity.Wire.RoundTrip.{parse-encode_response}

abbrev zeros : List ℕ
zeros =
    0 ∷ 0 ∷ 0 ∷ 0 ∷ 0 ∷ 0 ∷ 0 ∷ 0 ∷ 0 ∷ 0 ∷ 0 ∷ 0 ∷ 0 ∷ 0 ∷ 0 ∷ 0 ∷ 0 ∷ 0 ∷ 0 ∷ 0 ∷ 0 ∷ 0 ∷ 0 ∷ 0
    ∷ 0 ∷ 0 ∷ 0 ∷ 0 ∷ 0 ∷ 0 ∷ 0 ∷ 0 ∷ []

-- A stand-in that gives every message one code.
abbrev flat_crypto : Crypto
flat_crypto = record {
  hmac = λ key msg. zeros;
  sha256 = λ msg. msg;
  ct_eq = bytes_eq;
  ct_eq_iff = bytes_eq_iff;
}

-- A stand-in whose codes are the first 32 bytes of the key and the message.
abbrev short_crypto : Crypto
short_crypto = record {
  hmac = λ key msg. take 32 (key ++ (msg ++ zeros));
  sha256 = λ msg. msg;
  ct_eq = bytes_eq;
  ct_eq_iff = bytes_eq_iff;
}

short_crypto-size : (k m : List ℕ) → length (short_crypto.hmac k m) ≡ 32
short_crypto-size k m =
    length-take 32 (k ++ (m ++ zeros))
      (omega (arith, length-append k (m ++ zeros), length-append m zeros))

abbrev secret : HostSecret
secret = record { bytes = 1 ∷ 2 ∷ 3 ∷ [] }

abbrev key : SessionBindKey
key = record { bytes = 1 ∷ 2 ∷ 3 ∷ [] }

abbrev fields : ChallengeTranscript
fields = transcript (b's' ∷ []) (7 ∷ []) (4 ∷ []) (5 ∷ [])

abbrev dc : DcIdentityChallenge
dc = record { nonce = 7 ∷ [] }

challenge_is_no_bind_example : Collision flat_crypto secret.bytes
unfolding verify_response verify_challenge_mac compute_challenge_mac encode append_fields append_lp
    be_bytes bytes_eq verify_dc_bind_mac compute_dc_bind_mac encode_dc_bind_message mac_domain
    dc_bind_domain
challenge_is_no_bind_example =
    challenge_is_no_bind flat_crypto secret (record { bytes = 7 ∷ [] }) (b's' ∷ []) (4 ∷ [])
      (5 ∷ []) zeros fields refl refl

abbrev answer : DcIdentityResponse
answer = record {
  mac =
      1 ∷ 2 ∷ 3 ∷ b'r' ∷ b'e' ∷ b'm' ∷ b'o' ∷ b't' ∷ b'e' ∷ b'l' ∷ b'i' ∷ b'n' ∷ b'k' ∷ b'-' ∷ b'd'
      ∷ b'c' ∷ b'-' ∷ b'i' ∷ b'd' ∷ b'e' ∷ b'n' ∷ b't' ∷ b'i' ∷ b't' ∷ b'y' ∷ b'-' ∷ b'b' ∷ b'i'
      ∷ b'n' ∷ b'd' ∷ b'-' ∷ b'v' ∷ [];
}

verify_dc_bind_mac-binds_example : (fields ≡ fields) ⊎ Collision short_crypto key.bytes
unfolding verify_dc_bind_mac compute_dc_bind_mac encode_dc_bind_message append_fields append_lp
    be_bytes dc_bind_domain bytes_eq take
verify_dc_bind_mac-binds_example =
    verify_dc_bind_mac-binds short_crypto key fields fields answer.mac refl refl

abbrev unbound : IdentityBindState
unbound = new (b's' ∷ [])

complete_dc_bind-respond_dc_challenge_example :
    complete_dc_bind short_crypto key dc answer (4 ∷ []) (5 ∷ []) unbound
    ≡ some (record unbound { identity_bound = true }, ok tt)
unfolding respond_dc_challenge compute_dc_bind_mac encode_dc_bind_message append_fields append_lp
    be_bytes dc_bind_domain take new
complete_dc_bind-respond_dc_challenge_example =
    complete_dc_bind-respond_dc_challenge short_crypto key dc answer (4 ∷ []) (5 ∷ []) unbound
      short_crypto-size refl

answer-AreBytes : AreBytes answer.mac
unfolding AreBytes
answer-AreBytes = ground arith

parse-encode_response_example : parse_dc_json (encode_response answer) ≡ ok (response answer)
parse-encode_response_example = parse-encode_response answer answer-AreBytes refl
