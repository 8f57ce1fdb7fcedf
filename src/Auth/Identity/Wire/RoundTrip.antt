-- ===== src/Auth/Identity/Wire/RoundTrip.antt =====
-- The identity messages are read back as they were written.
use remotelink.Prelude.{
  ℕ, ◌≡◌, ◌≢◌, ◌∙◌, ap, subst, refl, true, false, some, List, [], ◌∷◌, ◌++◌, ok, ◌==◌, length,
  arith, All,
}
use mathlib.Core.List.{append_assoc}
use remotelink.Text.{codes, is_whitespace}
use remotelink.Text.Trim.{trim, trim_start, trim-enclosed}
use remotelink.Auth.Crypto.{bytes_eq}
use remotelink.Auth.Hex.{
  AreBytes, IsPlain, bytes_to_hex, hex_to_bytes, hex_to_bytes-bytes_to_hex, bytes_to_hex-IsInk,
}
use remotelink.Auth.Identity.{DcIdentityChallenge, DcIdentityResponse, dc_bind_mac_len}
use remotelink.Auth.Identity.Wire.{
  challenge_head, response_head, tail, encode_challenge, encode_response, strip_prefix, after, scan,
  quoted, json_string_field, parse_challenge, parse_response, parse_dc_json, parse_as,
  starts_with_brace, challenge, response,
}

scan-plain : (cs rest : List ℕ) → All IsPlain cs → scan false (cs ++ (b'"' ∷ rest)) ≡ some cs
unfolding scan IsPlain
scan-plain [] rest h = refl
scan-plain (c ∷ cs) rest (p, h) = ground (arith, scan-plain cs rest h)

challenge_type :
    (rest : List ℕ)
    → json_string_field (challenge_head ++ rest) (codes "type") ≡ some (codes "dc_challenge")
unfolding json_string_field after strip_prefix quoted scan trim_start is_whitespace codes
    challenge_head
challenge_type rest = refl

challenge_value :
    (rest : List ℕ) → json_string_field (challenge_head ++ rest) (codes "nonce") ≡ scan false rest
unfolding json_string_field after strip_prefix quoted trim_start is_whitespace codes challenge_head
challenge_value rest = refl

response_type :
    (rest : List ℕ)
    → json_string_field (response_head ++ rest) (codes "type") ≡ some (codes "dc_response")
unfolding json_string_field after strip_prefix quoted scan trim_start is_whitespace codes
    response_head
response_type rest = refl

response_value :
    (rest : List ℕ) → json_string_field (response_head ++ rest) (codes "mac") ≡ scan false rest
unfolding json_string_field after strip_prefix quoted trim_start is_whitespace codes response_head
response_value rest = refl

-- An object of one of the two forms is not trimmed.
trim-object :
    (head hex : List ℕ) → trim (b'{' ∷ (head ++ (hex ++ tail))) ≡ b'{' ∷ (head ++ (hex ++ tail))
trim-object head hex =
    subst (λ cs. trim (b'{' ∷ cs) ≡ b'{' ∷ cs) (reassociate head hex)
      (trim-enclosed b'{' (head ++ (hex ++ (b'"' ∷ []))) b'}' (unfold is_whitespace in refl)
        (unfold is_whitespace in refl))
  where
    reassociate :
        (head hex : List ℕ) → (head ++ (hex ++ (b'"' ∷ []))) ++ (b'}' ∷ []) ≡ head ++ (hex ++ tail)
    reassociate head hex =
        append_assoc head (hex ++ (b'"' ∷ [])) (b'}' ∷ [])
        ∙ ap (λ cs. head ++ cs) (append_assoc hex (b'"' ∷ []) (b'}' ∷ []))

trim-challenge :
    (hex : List ℕ) → trim (challenge_head ++ (hex ++ tail)) ≡ challenge_head ++ (hex ++ tail)
unfolding challenge_head codes
trim-challenge hex = trim-object (codes "\"type\":\"dc_challenge\",\"nonce\":\"") hex

trim-response :
    (hex : List ℕ) → trim (response_head ++ (hex ++ tail)) ≡ response_head ++ (hex ++ tail)
unfolding response_head codes
trim-response hex = trim-object (codes "\"type\":\"dc_response\",\"mac\":\"") hex

not_empty : (cs : List ℕ) → cs ≢ [] → (length cs == 0) ≡ false
not_empty [] n = absurd (n refl)
not_empty (c ∷ cs) n = ground arith

-- The value of a field that is quoted in hexadecimal
value_read :
    (bs rest : List ℕ)
    → AreBytes bs
    → scan false (bytes_to_hex bs ++ (b'"' ∷ rest)) ≡ some (bytes_to_hex bs)
value_read bs rest h = let (_, plain) = bytes_to_hex-IsInk bs h in scan-plain _ rest plain

-- The two parsers, once their calls are known
parse_challenge_by :
    (obj hex nonce : List ℕ)
    → json_string_field obj (codes "nonce") ≡ some hex
    → hex_to_bytes hex ≡ ok nonce
    → (length nonce == 0) ≡ false
    → parse_challenge obj ≡ ok (challenge (record { nonce = nonce }))
unfolding parse_challenge
parse_challenge_by obj hex nonce e₁ e₂ e₃ = ground arith

parse_response_by :
    (obj hex mac : List ℕ)
    → json_string_field obj (codes "mac") ≡ some hex
    → hex_to_bytes hex ≡ ok mac
    → length mac ≡ dc_bind_mac_len
    → parse_response obj ≡ ok (response (record { mac = mac }))
unfolding parse_response
parse_response_by obj hex mac e₁ e₂ e₃ = ground arith

parse_dc_json_by :
    (s typ : List ℕ)
    → trim s ≡ s
    → starts_with_brace s ≡ true
    → json_string_field s (codes "type") ≡ some typ
    → parse_dc_json s ≡ parse_as typ s
unfolding parse_dc_json
parse_dc_json_by s typ e₁ e₂ e₃ = ground arith

-- A challenge that is encoded is parsed to itself, if its nonce is not empty and its entries are
-- bytes.
pub parse-encode_challenge :
    (c : DcIdentityChallenge)
    → AreBytes c.nonce
    → c.nonce ≢ []
    → parse_dc_json (encode_challenge c) ≡ ok (challenge c)
unfolding encode_challenge parse_as bytes_eq codes
parse-encode_challenge c h n =
    let hex = bytes_to_hex c.nonce in
    parse_dc_json_by (challenge_head ++ (hex ++ tail)) (codes "dc_challenge") (trim-challenge hex)
      (unfold challenge_head codes in refl) (challenge_type (hex ++ tail))
    ∙ parse_challenge_by (challenge_head ++ (hex ++ tail)) hex c.nonce
        (challenge_value (hex ++ tail) ∙ value_read c.nonce (b'}' ∷ []) h)
        (hex_to_bytes-bytes_to_hex c.nonce h) (not_empty c.nonce n)

-- A response of 32 bytes that is encoded is parsed to itself.
pub parse-encode_response :
    (r : DcIdentityResponse)
    → AreBytes r.mac
    → length r.mac ≡ dc_bind_mac_len
    → parse_dc_json (encode_response r) ≡ ok (response r)
unfolding encode_response parse_as bytes_eq codes
parse-encode_response r h n =
    let hex = bytes_to_hex r.mac in
    parse_dc_json_by (response_head ++ (hex ++ tail)) (codes "dc_response") (trim-response hex)
      (unfold response_head codes in refl) (response_type (hex ++ tail))
    ∙ parse_response_by (response_head ++ (hex ++ tail)) hex r.mac
        (response_value (hex ++ tail) ∙ value_read r.mac (b'}' ∷ []) h)
        (hex_to_bytes-bytes_to_hex r.mac h) n
