-- ===== src/Text.antt =====
-- Rust's `str`, as the list of its code points. `str::len` counts the bytes of its UTF-8 form.
pub mod Trim
use Prim.Native.String.{String, [] as empty, ◌∷◌ as ◌∷ₛ◌}
use Prim.Native.Char.{code}
use remotelink.Prelude.{
  ℕ, ◌+◌, ◌/◌, ◌%◌, Bool, true, ◌&&◌, ◌||◌, List, [], ◌∷◌, ◌++◌, ltb, leb, ◌==◌, if◌then◌else◌, ◌≡◌,
  refl, length, arith,
}

-- Rust's `char::is_whitespace`: Unicode's White_Space.
unfoldable pub is_whitespace : ℕ → Bool
is_whitespace c =
    (leb 9 c && leb c 13)
    || (c == 32)
    || (c == 0x85)
    || (c == 0xa0)
    || (c == 0x1680)
    || (leb 0x2000 c && leb c 0x200a)
    || (c == 0x2028)
    || (c == 0x2029)
    || (c == 0x202f)
    || (c == 0x205f)
    || (c == 0x3000)

unfoldable pub is_ascii_digit : ℕ → Bool
is_ascii_digit c = leb b'0' c && leb c b'9'

abbrev pub len_utf8 : ℕ → ℕ
len_utf8 c = if ltb c 0x80 then 1 else if ltb c 0x800 then 2 else if ltb c 0x10000 then 3 else 4

-- `str::len`
unfoldable pub str_len : List ℕ → ℕ
str_len [] = 0
str_len (c ∷ cs) = len_utf8 c + str_len cs

-- `chars().all(..)`
unfoldable pub all_digits : List ℕ → Bool
unfolding is_ascii_digit
all_digits [] = true
all_digits (c ∷ cs) = is_ascii_digit c && all_digits cs

pub str_len-digits : (cs : List ℕ) → all_digits cs ≡ true → str_len cs ≡ length cs
unfolding str_len all_digits
str_len-digits [] h = refl
str_len-digits (c ∷ cs) h = ground (arith, str_len-digits cs)

-- The code points of a text
unfoldable pub codes : String → List ℕ
codes empty = []
codes (c ∷ₛ s) = code c ∷ codes s

-- `char::encode_utf8`
unfoldable pub encode_utf8 : ℕ → List ℕ
encode_utf8 c =
    if ltb c 0x80
    then c ∷ []
    else if ltb c 0x800
    then (0xc0 + c / 64) ∷ (0x80 + c % 64) ∷ []
    else if ltb c 0x10000
    then (0xe0 + c / 4096) ∷ (0x80 + c / 64 % 64) ∷ (0x80 + c % 64) ∷ []
    else (0xf0 + c / 262144) ∷ (0x80 + c / 4096 % 64) ∷ (0x80 + c / 64 % 64) ∷ (0x80 + c % 64) ∷ []

-- `str::as_bytes`
unfoldable pub as_bytes : List ℕ → List ℕ
unfolding encode_utf8
as_bytes [] = []
as_bytes (c ∷ cs) = encode_utf8 c ++ as_bytes cs
