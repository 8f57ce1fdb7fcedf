-- ===== src/Auth/DeviceId.antt =====
-- Public device ids with a Luhn check digit (packages/auth/src/device_id.rs). A text is the list
-- of its code points.
pub mod Luhn
pub mod RoundTrip
use remotelink.Prelude.{
  ℕ, zero, suc, ◌+◌, ◌-◌, ◌*◌, ◌%◌, ◌^◌, Bool, true, false, not, ◌&&◌, ◌||◌, List, [], ◌∷◌, ◌++◌,
  Result, ok, err, ltb, leb, ◌==◌, if◌then◌else◌,
}
use mathlib.Core.List.{reverse}
use remotelink.Text.{is_whitespace, is_ascii_digit, str_len, all_digits}

abbrev pub body_digits : ℕ
body_digits = 9

abbrev pub total_digits : ℕ
total_digits = body_digits + 1

-- The reasons of `AuthError::InvalidDeviceId`, one for each text.
pub data DeviceIdError : Type 0 where
  wrong_length : ℕ → DeviceIdError
  id_not_numeric : DeviceIdError
  check_digit_mismatch : DeviceIdError
  empty_body : DeviceIdError
  body_not_numeric : DeviceIdError

pub record DevicePublicId : Type 0 where
  pub digits : List ℕ

-- `filter(|c| !c.is_whitespace() && *c != '-' && *c != '_')`
unfoldable pub strip : List ℕ → List ℕ
unfolding is_whitespace
strip [] = []
strip (c ∷ cs) =
    let rest = strip cs in
    if not (is_whitespace c) && not (c == b'-') && not (c == b'_') then c ∷ rest else rest

-- What one digit adds: doubled, with nine taken off above nine, in every other place.
unfoldable pub luhn_digit : Bool → ℕ → ℕ
luhn_digit false d = d
luhn_digit true d = let d' = d * 2 in if ltb 9 d' then d' - 9 else d'

-- The loop over `chars().rev()`; `sum` is a u32.
unfoldable pub luhn_loop : Bool → ℕ → List ℕ → ℕ
unfolding luhn_digit
luhn_loop double sum [] = sum
luhn_loop double sum (c ∷ cs) =
    luhn_loop (not double) ((sum + luhn_digit double (c - b'0')) % 2 ^ 32) cs

abbrev pub is_empty : List ℕ → Bool
is_empty [] = true
is_empty (c ∷ cs) = false

unfoldable pub luhn_check_digit : List ℕ → Result ℕ DeviceIdError
unfolding luhn_loop all_digits
luhn_check_digit body =
    if is_empty body
    then err empty_body
    else if not (all_digits body)
    then err body_not_numeric
    else ok ((10 - luhn_loop true 0 (reverse body) % 10) % 10)

unfoldable pub validate_luhn : List ℕ → Bool
unfolding luhn_loop all_digits
validate_luhn full =
    if is_empty full || not (all_digits full)
    then false
    else luhn_loop false 0 (reverse full) % 10 == 0

unfoldable pub parse : List ℕ → Result DevicePublicId DeviceIdError
unfolding strip str_len all_digits validate_luhn
parse input =
    let digits = strip input in
    if not (str_len digits == total_digits)
    then err (wrong_length (str_len digits))
    else if not (all_digits digits)
    then err id_not_numeric
    else if not (validate_luhn digits)
    then err check_digit_mismatch
    else ok (record { digits = digits })

-- `&d[a..b]`, on a text that is ASCII.
unfoldable pub skip : ℕ → List ℕ → List ℕ
skip zero cs = cs
skip (suc n) [] = []
skip (suc n) (c ∷ cs) = skip n cs

unfoldable pub first : ℕ → List ℕ → List ℕ
first zero cs = []
first (suc n) [] = []
first (suc n) (c ∷ cs) = c ∷ first n cs

unfoldable pub display_grouped : DevicePublicId → List ℕ
unfolding skip first
display_grouped id =
    first 3 id.digits ++ (32 ∷ (first 3 (skip 3 id.digits) ++ (32 ∷ first 4 (skip 6 id.digits))))

-- The rounds of `generate_with_rng`: `draw i n` is what `gen_range(0..n)` returns in round `i`.
unfoldable pub generate_body : (ℕ → ℕ → ℕ) → ℕ → ℕ → List ℕ → List ℕ
generate_body draw zero i body = body
generate_body draw (suc rounds) i body =
    generate_body draw rounds (i + 1)
      (body ++ ((if is_empty body then b'1' + draw i 9 else b'0' + draw i 10) ∷ []))

-- `expect` panics on an error of `luhn_check_digit`, which stands here for the panic.
unfoldable pub generate_with_rng : (ℕ → ℕ → ℕ) → Result DevicePublicId DeviceIdError
unfolding generate_body luhn_check_digit
generate_with_rng draw =
    let body = generate_body draw body_digits 0 [] in
    elim (luhn_check_digit body) [
      | err e ↦ err e
      | ok check ↦ ok (record { digits = body ++ ((b'0' + check) ∷ []) })
    ]
