-- ===== src/Auth/Otp.antt =====
-- One-time codes (packages/auth/src/otp.rs). A code is the list of its code points; by the time
-- it is hashed it is ASCII, so these are its bytes. Times are Unix seconds.
pub mod Laws
use remotelink.Prelude.{
  ℕ, suc, zero, ◌+◌, ◌≤◌, ◌<◌, ◌≡◌, ◌↔◌, refl, Bool, true, false, not, ◌&&◌, List, [], ◌∷◌, ◌++◌,
  Result, ok, err, ltb, leb, ◌==◌, if◌then◌else◌, arith, length,
}
use remotelink.Text.{str_len, all_digits}
use remotelink.Auth.Crypto.{Crypto}

abbrev pub otp_min_digits : ℕ
otp_min_digits = 6

abbrev pub otp_max_digits : ℕ
otp_max_digits = 8

abbrev pub otp_salt_len : ℕ
otp_salt_len = 16

-- "remotelink-otp-v1:"
unfoldable pub otp_hash_domain : List ℕ
otp_hash_domain =
    b'r' ∷ b'e' ∷ b'm' ∷ b'o' ∷ b't' ∷ b'e' ∷ b'l' ∷ b'i' ∷ b'n' ∷ b'k' ∷ b'-' ∷ b'o' ∷ b't' ∷ b'p'
    ∷ b'-' ∷ b'v' ∷ b'1' ∷ b':' ∷ []

-- The errors of this module, one for each text.
pub data OtpError : Type 0 where
  wrong_digit_count : ℕ → OtpError
  otp_not_numeric : OtpError
  empty_pepper : OtpError
  wrong_salt_length : ℕ → OtpError
  code_mismatch : OtpError
  already_consumed : OtpError
  expired : OtpError

abbrev pub Check : Type 0
Check = Result (Unit {0}) OtpError

infixl 5 ◌>>=◌ ◌>>◌
abbrev pub ◌>>=◌ : {A B : Type 0} → Result A OtpError → (A → Result B OtpError) → Result B OtpError
ok a >>= f = f a
err e >>= f = err e

abbrev pub ◌>>◌ : {B : Type 0} → Check → Result B OtpError → Result B OtpError
m >> k = m >>= λ _. k

abbrev pub ensure : Bool → OtpError → Check
ensure true e = ok tt
ensure false e = err e

pub record OtpHash : Type 0 where
  pub digest : List ℕ
  pub salt : List ℕ
  pub keyed : Bool

pub record OtpRecord : Type 0 where
  pub hash : OtpHash
  pub expires_at_unix : ℕ
  pub consumed : Bool

unfoldable pub new : OtpHash → ℕ → OtpRecord
new hash expires_at_unix = record {
  hash = hash;
  expires_at_unix = expires_at_unix;
  consumed = false;
}

unfoldable pub is_expired : ℕ → OtpRecord → Bool
is_expired now r = leb r.expires_at_unix now

unfoldable pub mark_consumed : OtpRecord → OtpRecord
mark_consumed r = record r { consumed = true }

abbrev count_ok : ℕ → Bool
count_ok n = leb otp_min_digits n && leb n otp_max_digits

unfoldable pub validate_otp_format : List ℕ → Check
validate_otp_format code = do
  ensure (count_ok (str_len code)) (wrong_digit_count (str_len code))
  ensure (all_digits code) otp_not_numeric

-- The rounds of `generate_otp_with_rng`: `draw i` is what `gen_range(0..10)` returns in round `i`.
unfoldable pub draw_digits : (ℕ → ℕ) → ℕ → ℕ → List ℕ
draw_digits draw zero i = []
draw_digits draw (suc rounds) i = (b'0' + draw i) ∷ draw_digits draw rounds (i + 1)

unfoldable pub generate_otp_with_rng : ℕ → (ℕ → ℕ) → Result (List ℕ) OtpError
unfolding draw_digits
generate_otp_with_rng digits draw = do
  ensure (count_ok digits) (wrong_digit_count digits)
  ok (draw_digits draw digits 0)

abbrev zero_salt : List ℕ
zero_salt = 0 ∷ 0 ∷ 0 ∷ 0 ∷ 0 ∷ 0 ∷ 0 ∷ 0 ∷ 0 ∷ 0 ∷ 0 ∷ 0 ∷ 0 ∷ 0 ∷ 0 ∷ 0 ∷ []

abbrev is_empty : List ℕ → Bool
is_empty [] = true
is_empty (b ∷ bs) = false

module _ (crypto : Crypto) where
  unfoldable pub hash_otp_with_salt : List ℕ → List ℕ → List ℕ → Result OtpHash OtpError
  hash_otp_with_salt code pepper salt = do
    validate_otp_format code
    ensure (not (is_empty pepper)) empty_pepper
    ensure (length salt == otp_salt_len) (wrong_salt_length (length salt))
    ok (record {
      digest = crypto.hmac pepper (otp_hash_domain ++ (salt ++ code));
      salt = salt;
      keyed = true;
    })

  unfoldable pub hash_otp_unkeyed : List ℕ → Result OtpHash OtpError
  hash_otp_unkeyed code = do
    validate_otp_format code
    ok (record {
      digest = crypto.sha256 (otp_hash_domain ++ code);
      salt = zero_salt;
      keyed = false;
    })

  unfoldable pub verify_otp : List ℕ → List ℕ → OtpHash → Check
  verify_otp code pepper expected = do
    candidate ←
        if expected.keyed
        then hash_otp_with_salt code pepper expected.salt
        else hash_otp_unkeyed code
    ensure (crypto.ct_eq candidate.digest expected.digest) code_mismatch

  unfoldable pub verify : List ℕ → List ℕ → ℕ → OtpRecord → Check
  unfolding is_expired
  verify code pepper now r = do
    ensure (not r.consumed) already_consumed
    ensure (not (is_expired now r)) expired
    verify_otp code pepper r.hash

  unfoldable pub verify_and_consume : List ℕ → List ℕ → ℕ → OtpRecord → OtpRecord × Check
  verify_and_consume code pepper now r = elim (verify code pepper now r) [
    | ok _ ↦ (record r { consumed = true }, ok tt)
    | err e ↦ (r, err e)
  ]
