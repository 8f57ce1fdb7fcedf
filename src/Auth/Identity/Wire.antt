-- ===== src/Auth/Identity/Wire.antt =====
-- The identity messages on the data channel (packages/auth/src/identity.rs): two JSON objects of one
-- form each, and the scanner that reads them. A text is the list of its code points.
pub mod RoundTrip
use remotelink.Prelude.{
  ℕ, ◌≡◌, ◌≢◌, ◌∙◌, ap, subst, refl, not, Bool, true, false, Option, none, some, List, [], ◌∷◌,
  ◌++◌, Result, ok, err, ◌==◌, if◌then◌else◌, length, arith, All,
}
use mathlib.Core.List.{append_assoc}
use remotelink.Text.{codes, is_whitespace}
use remotelink.Text.Trim.{trim, trim_start, trim-enclosed}
use remotelink.Auth.Crypto.{bytes_eq}
use remotelink.Auth.Hex.{
  HexError, AreBytes, IsPlain, bytes_to_hex, hex_to_bytes, hex_to_bytes-bytes_to_hex,
  bytes_to_hex-IsInk,
}
use remotelink.Auth.Identity.{DcIdentityChallenge, DcIdentityResponse, dc_bind_mac_len}

pub data DcIdentityMessage : Type 0 where
  challenge : DcIdentityChallenge → DcIdentityMessage
  response : DcIdentityResponse → DcIdentityMessage

-- The errors, one for each text.
pub data WireError : Type 0 where
  expected_object : WireError
  missing_type : WireError
  missing_nonce : WireError
  nonce_hex : HexError → WireError
  empty_nonce : WireError
  missing_mac : WireError
  mac_hex : HexError → WireError
  mac_size : ℕ → WireError
  unknown_type : List ℕ → WireError

-- What stands before and behind the hexadecimal text
unfoldable pub challenge_head : List ℕ
unfolding codes
challenge_head = codes "{\"type\":\"dc_challenge\",\"nonce\":\""

unfoldable pub response_head : List ℕ
unfolding codes
response_head = codes "{\"type\":\"dc_response\",\"mac\":\""

abbrev pub tail : List ℕ
tail = b'"' ∷ b'}' ∷ []

unfoldable pub encode_challenge : DcIdentityChallenge → List ℕ
unfolding bytes_to_hex challenge_head
encode_challenge c = challenge_head ++ (bytes_to_hex c.nonce ++ tail)

unfoldable pub encode_response : DcIdentityResponse → List ℕ
unfolding bytes_to_hex response_head
encode_response r = response_head ++ (bytes_to_hex r.mac ++ tail)

unfoldable pub strip_prefix : List ℕ → List ℕ → Option (List ℕ)
strip_prefix [] cs = some cs
strip_prefix (p ∷ ps) [] = none
strip_prefix (p ∷ ps) (c ∷ cs) = let rest = strip_prefix ps cs in if p == c then rest else none

-- The text behind the first occurrence of the pattern: `find`, and the slice behind it
unfoldable pub after : List ℕ → List ℕ → Option (List ℕ)
unfolding strip_prefix
after pattern [] = strip_prefix pattern []
after pattern (c ∷ cs) = elim (strip_prefix pattern (c ∷ cs)) [
  | some rest ↦ some rest
  | none ↦ after pattern cs
]

abbrev push : ℕ → Option (List ℕ) → Option (List ℕ)
push c none = none
push c (some cs) = some (c ∷ cs)

-- The loop over the characters behind the opening quote; the flag says that the one before was a
-- backslash.
unfoldable pub scan : Bool → List ℕ → Option (List ℕ)
scan escaped [] = none
scan true (c ∷ cs) = push c (scan false cs)
scan false (c ∷ cs) =
    let kept = push c (scan false cs) in
    let escape = scan true cs in if c == b'\\' then escape else if c == b'"' then some [] else kept

-- The value, if it is a quoted text
unfoldable pub quoted : List ℕ → Option (List ℕ)
unfolding scan
quoted [] = none
quoted (c ∷ cs) = if not (c == b'"') then none else scan false cs

infixl 5 ◌>>=◌
abbrev ◌>>=◌ : {A B : Type 0} → Option A → (A → Option B) → Option B
none >>= f = none
some a >>= f = f a

unfoldable pub json_string_field : List ℕ → List ℕ → Option (List ℕ)
unfolding after quoted trim_start
json_string_field obj key = do
  after_key ← after (b'"' ∷ (key ++ (b'"' ∷ []))) obj
  after_colon ← after (b':' ∷ []) after_key
  quoted (trim_start after_colon)

unfoldable pub parse_challenge : List ℕ → Result DcIdentityMessage WireError
parse_challenge obj = elim (json_string_field obj (codes "nonce")) [
  | none ↦ err missing_nonce
  | some hex ↦ elim (hex_to_bytes hex) [
    | err e ↦ err (nonce_hex e)
    | ok nonce ↦
        if length nonce == 0 then err empty_nonce else ok (challenge (record { nonce = nonce }))
  ]
]

unfoldable pub parse_response : List ℕ → Result DcIdentityMessage WireError
parse_response obj = elim (json_string_field obj (codes "mac")) [
  | none ↦ err missing_mac
  | some hex ↦ elim (hex_to_bytes hex) [
    | err e ↦ err (mac_hex e)
    | ok mac ↦
        if not (length mac == dc_bind_mac_len)
        then err (mac_size (length mac))
        else ok (response (record { mac = mac }))
  ]
]

-- The object, by its type
unfoldable pub parse_as : List ℕ → List ℕ → Result DcIdentityMessage WireError
parse_as typ obj =
    if bytes_eq typ (codes "dc_challenge")
    then parse_challenge obj
    else if bytes_eq typ (codes "dc_response")
    then parse_response obj
    else err (unknown_type typ)

abbrev pub starts_with_brace : List ℕ → Bool
starts_with_brace [] = false
starts_with_brace (c ∷ cs) = c == b'{'

unfoldable pub parse_dc_json : List ℕ → Result DcIdentityMessage WireError
parse_dc_json s =
    let obj = trim s in
    if not (starts_with_brace obj)
    then err expected_object
    else elim (json_string_field obj (codes "type")) [
      | none ↦ err missing_type
      | some typ ↦ parse_as typ obj
    ]
