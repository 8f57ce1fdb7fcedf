-- ===== src/Auth/Otp/Laws.antt =====
-- What a one-time code guarantees.
use remotelink.Prelude.{
  ℕ, suc, zero, ◌+◌, ◌≤◌, ◌<◌, ◌≡◌, ◌↔◌, refl, true, false, List, [], ◌∷◌, ok, err, arith, length,
}
use remotelink.Text.{all_digits, str_len-digits}
use remotelink.Auth.Crypto.{Crypto}
use remotelink.Auth.Otp.{
  OtpRecord, OtpHash, Check, validate_otp_format, draw_digits, generate_otp_with_rng,
  hash_otp_with_salt, verify_otp, verify, verify_and_consume,
}

module _ (crypto : Crypto) where
  -- The code from which a keyed hash was made is accepted for it, under the same pepper.
  pub verify_otp-hash :
      (code pepper salt : List ℕ) (h : OtpHash)
      → hash_otp_with_salt crypto code pepper salt ≡ ok h
      → verify_otp crypto code pepper h ≡ ok tt
  unfolding hash_otp_with_salt verify_otp
  verify_otp-hash code pepper salt h e = ground (arith, e, crypto.ct_eq_iff h.digest h.digest)

  -- A record accepts a code exactly when it has not been consumed, has not expired, and its hash
  -- accepts the code; then it is consumed, and otherwise it stays as it was.
  pub verify_and_consume_iff :
      (code pepper : List ℕ) (now : ℕ) (r r' : OtpRecord)
      → (verify_and_consume crypto code pepper now r ≡ (r', ok tt)) ↔ (
          (r.consumed ≡ false)
          × (now < r.expires_at_unix)
          × (verify_otp crypto code pepper r.hash ≡ ok tt)
          × (r' ≡ record r { consumed = true }))
  unfolding verify_and_consume verify
  verify_and_consume_iff code pepper now r r' = (λ e. ground (arith, e), λ t. ground (arith, t))

  -- A try: the code, the pepper, and the time.
  abbrev pub Try : Type 0
  Try = List ℕ × List ℕ × ℕ

  abbrev pub accepted : Check → ℕ
  accepted (ok _) = 1
  accepted (err _) = 0

  -- How many of a series of tries are accepted.
  unfoldable pub acceptances : List Try → OtpRecord → ℕ
  acceptances [] r = 0
  acceptances ((code, pepper, now) ∷ tries) r =
      let (r', answer) = verify_and_consume crypto code pepper now r in
      accepted answer + acceptances tries r'

  consumed_refuses :
      (tries : List Try) (r : OtpRecord) → r.consumed ≡ true → acceptances tries r ≡ 0
  unfolding acceptances verify_and_consume verify
  consumed_refuses [] r h = refl
  consumed_refuses ((code, pepper, now) ∷ tries) r h = ground (arith, consumed_refuses tries r h)

  -- A code works once: of any series of tries on one record at most one is accepted, whatever the
  -- codes, the peppers and the times.
  pub acceptances-le_one : (tries : List Try) (r : OtpRecord) → acceptances tries r ≤ 1
  unfolding acceptances verify_and_consume
  acceptances-le_one [] r = omega arith
  acceptances-le_one ((code, pepper, now) ∷ tries) r =
      ground
        (arith, consumed_refuses tries (record r { consumed = true }), acceptances-le_one tries r)

draw_digits_lem :
    (draw : ℕ → ℕ)
    → ((i : ℕ) → draw i < 10)
    → (rounds i : ℕ)
    → (all_digits (draw_digits draw rounds i) ≡ true)
      × (length (draw_digits draw rounds i) ≡ rounds)
unfolding draw_digits all_digits
draw_digits_lem draw range zero i = (refl, refl)
draw_digits_lem draw range (suc rounds) i =
    ground (arith, range i, draw_digits_lem draw range rounds (i + 1))

-- A generated code passes the format check, with the number of digits that was asked for.
pub generate-validate :
    (digits : ℕ) (draw : ℕ → ℕ) (code : List ℕ)
    → ((i : ℕ) → draw i < 10)
    → generate_otp_with_rng digits draw ≡ ok code
    → (validate_otp_format code ≡ ok tt) × (length code ≡ digits)
unfolding generate_otp_with_rng validate_otp_format
generate-validate digits draw code range e =
    ground
      (arith, e, draw_digits_lem draw range digits 0, str_len-digits (draw_digits draw digits 0))
