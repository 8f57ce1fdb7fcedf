-- ===== src/Auth/Hex.antt =====
-- Hexadecimal text (the helpers at the end of packages/auth/src/identity.rs). A text is the list of
-- its code points, a byte a number below 256.
use remotelink.Prelude.{
  ℕ, ◌+◌, ◌-◌, ◌*◌, ◌/◌, ◌%◌, ◌<◌, ◌≡◌, ◌∙◌, ap, refl, Bool, false, not, ◌&&◌, List, [], ◌∷◌,
  Result, ok, err, ◌≢◌, leb, ltb, ◌==◌, if◌then◌else◌, arith, All, length,
}
use remotelink.Text.{is_whitespace, as_bytes}
use remotelink.Text.Trim.{IsInk, trim, trim-ink, as_bytes-ink}

-- `HEX[n as usize]`
unfoldable pub hex_digit : ℕ → ℕ
hex_digit n = if ltb n 10 then b'0' + n else b'a' + (n - 10)

unfoldable pub bytes_to_hex : List ℕ → List ℕ
unfolding hex_digit
bytes_to_hex [] = []
bytes_to_hex (b ∷ bs) = hex_digit (b / 16) ∷ hex_digit (b % 16) ∷ bytes_to_hex bs

pub data HexError : Type 0 where
  odd_hex_length : HexError
  invalid_hex_digit : ℕ → HexError

abbrev between : ℕ → ℕ → ℕ → Bool
between low c high = leb low c && leb c high

unfoldable pub hex_nibble : ℕ → Result ℕ HexError
hex_nibble c =
    if between b'0' c b'9'
    then ok (c - b'0')
    else if between b'a' c b'f'
    then ok (c - b'a' + 10)
    else if between b'A' c b'F'
    then ok (c - b'A' + 10)
    else err (invalid_hex_digit c)

infixl 5 ◌>>=◌
abbrev ◌>>=◌ : {A B : Type 0} → Result A HexError → (A → Result B HexError) → Result B HexError
ok a >>= f = f a
err e >>= f = err e

-- The loop, on a text of even length
unfoldable pub hex_loop : List ℕ → Result (List ℕ) HexError
unfolding hex_nibble
hex_loop [] = ok []
hex_loop (c ∷ []) = err odd_hex_length
hex_loop (c ∷ d ∷ cs) = do
  hi ← hex_nibble c
  lo ← hex_nibble d
  rest ← hex_loop cs
  ok ((hi * 16 + lo) ∷ rest)

unfoldable pub hex_to_bytes : List ℕ → Result (List ℕ) HexError
unfolding hex_loop trim as_bytes
hex_to_bytes hex =
    let bytes = as_bytes (trim hex) in
    if not (length bytes % 2 == 0) then err odd_hex_length else hex_loop bytes

-- A list of bytes
unfoldable pub AreBytes : List ℕ → Type 0
AreBytes = All (λ b. b < 256)

nibbles : (n : ℕ) → n < 16 → hex_nibble (hex_digit n) ≡ ok n
unfolding hex_nibble hex_digit
nibbles n h = ground arith

hex_loop-bytes_to_hex : (bs : List ℕ) → AreBytes bs → hex_loop (bytes_to_hex bs) ≡ ok bs
unfolding hex_loop bytes_to_hex AreBytes
hex_loop-bytes_to_hex [] h = refl
hex_loop-bytes_to_hex (b ∷ bs) (small, h) = ground (
  arith,
  nibbles (b / 16) (omega arith),
  nibbles (b % 16) (omega arith),
  hex_loop-bytes_to_hex bs h,
)

pub length-bytes_to_hex : (bs : List ℕ) → length (bytes_to_hex bs) ≡ 2 * length bs
unfolding bytes_to_hex
length-bytes_to_hex [] = refl
length-bytes_to_hex (b ∷ bs) = omega (arith, length-bytes_to_hex bs)

-- A character that stands for itself in a text that is quoted.
unfoldable pub IsPlain : ℕ → Type 0
IsPlain c = (c ≢ b'"') × (c ≢ b'\\')

hex_digit-IsInk : (n : ℕ) → n < 16 → IsInk (hex_digit n) × IsPlain (hex_digit n)
unfolding hex_digit is_whitespace IsPlain
hex_digit-IsInk n h = (ground arith, ground arith)

pub bytes_to_hex-IsInk :
    (bs : List ℕ) → AreBytes bs → All IsInk (bytes_to_hex bs) × All IsPlain (bytes_to_hex bs)
unfolding bytes_to_hex AreBytes
bytes_to_hex-IsInk [] h = (tt, tt)
bytes_to_hex-IsInk (b ∷ bs) (small, h) =
    let (i₁, p₁) = hex_digit-IsInk (b / 16) (omega arith) in
    let (i₂, p₂) = hex_digit-IsInk (b % 16) (omega arith) in
    let (i, p) = bytes_to_hex-IsInk bs h in ((i₁, (i₂, i)), (p₁, (p₂, p)))

unchanged :
    (bs : List ℕ)
    → AreBytes bs
    → (as_bytes (trim (bytes_to_hex bs)) ≡ bytes_to_hex bs)
      × (not (length (bytes_to_hex bs) % 2 == 0) ≡ false)
unchanged bs h =
    let (ink, _) = bytes_to_hex-IsInk bs h in
    (
      ap as_bytes (trim-ink (bytes_to_hex bs) ink) ∙ as_bytes-ink (bytes_to_hex bs) ink,
      ground (arith, length-bytes_to_hex bs),
    )

-- Bytes that are written in hexadecimal are read back.
pub hex_to_bytes-bytes_to_hex : (bs : List ℕ) → AreBytes bs → hex_to_bytes (bytes_to_hex bs) ≡ ok bs
unfolding hex_to_bytes
hex_to_bytes-bytes_to_hex bs h =
    let (same, even) = unchanged bs h in rw (same, even) (hex_loop-bytes_to_hex bs h)
