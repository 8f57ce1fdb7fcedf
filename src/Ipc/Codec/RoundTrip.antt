-- ===== src/Ipc/Codec/RoundTrip.antt =====
-- A frame that is written and decoded again from a buffer.
use remotelink.Prelude.{
  Result-cases, ℕ, ◌+◌, ◌^◌, ◌/◌, ◌%◌, ◌≤◌, ◌≡◌, ap, List, [], ◌∷◌, ◌++◌, ok, length, take,
  take-append, length-append, arith, inl, inr,
}
use remotelink.Auth.Transcript.{be_bytes}
use remotelink.Ipc.Message.{ControlMessage, new}
use remotelink.Ipc.Limits.{validate_field_limits}
use remotelink.Ipc.Limits.Bounds.{IsWithin, validate_field_limits-IsWithin}
use remotelink.Ipc.Codec.{
  Json, encode_frame, decode_frame, decode_payload, encode_control, decode_control, check_envelope,
  from_be_bytes, max_frame_payload,
}

pub from_be_bytes-be_bytes :
    (n : ℕ)
    → n ≤ max_frame_payload
    → from_be_bytes (n / 2 ^ 24 % 256) (n / 2 ^ 16 % 256) (n / 2 ^ 8 % 256) (n % 256) ≡ n
unfolding from_be_bytes
from_be_bytes-be_bytes n h = omega arith

module _ (json : Json) where
  -- The JSON library reads back what it has written for this message.
  unfoldable pub Faithful : ControlMessage → Type 0
  Faithful m =
      (payload : List ℕ) → json.to_vec (new m) ≡ ok payload → json.from_slice payload ≡ ok (new m)

  -- What a frame is that is written for a message
  pub encode_control-ok :
      (m : ControlMessage) (frame : List ℕ)
      → encode_control json m ≡ ok frame
      → (payload : List ℕ) × (validate_field_limits m ≡ ok tt)
        × (json.to_vec (new m) ≡ ok payload)
        × (length payload ≤ max_frame_payload)
        × (frame ≡ be_bytes (length payload) ++ payload)
  unfolding encode_control encode_frame
  encode_control-ok m frame e = elim (Result-cases (json.to_vec (new m))) [
    | inl (payload, p) ↦ (payload, ground arith, p, ground arith, ground arith)
    | inr (error, p) ↦ absurd (ground arith)
  ]

  decode_payload-append :
      (m : ControlMessage) (payload rest : List ℕ)
      → length payload ≤ max_frame_payload
      → json.from_slice payload ≡ ok (new m)
      → decode_payload json (length payload) (payload ++ rest) ≡ ok (new m, 4 + length payload)
  unfolding decode_payload
  decode_payload-append m payload rest h p =
      ground (arith, length-append payload rest, take-append payload rest)

  decode_control-framed :
      (m : ControlMessage) (payload rest : List ℕ)
      → validate_field_limits m ≡ ok tt
      → json.from_slice payload ≡ ok (new m)
      → length payload ≤ max_frame_payload
      → decode_control json ((be_bytes (length payload) ++ payload) ++ rest)
        ≡ ok (m, 4 + length payload)
  unfolding decode_control decode_frame be_bytes check_envelope new
  decode_control-framed m payload rest valid p small = ground (
    arith,
    from_be_bytes-be_bytes (length payload) small,
    decode_payload-append m payload rest small p,
  )

  length-framed :
      (payload : List ℕ) → length (be_bytes (length payload) ++ payload) ≡ 4 + length payload
  unfolding be_bytes
  length-framed payload = omega arith

  -- A frame that `encode_control` has written is decoded to its message, whatever follows it, and the
  -- count is the frame's length: provided that the JSON library reads back what it wrote for the
  -- message.
  pub decode_control-encode_control :
      (m : ControlMessage) (frame rest : List ℕ)
      → Faithful m
      → encode_control json m ≡ ok frame
      → decode_control json (frame ++ rest) ≡ ok (m, length frame)
  unfolding Faithful
  decode_control-encode_control m frame rest faithful e =
      let (payload, valid, wrote, small, whole) = encode_control-ok m frame e in
      ground (
        arith,
        ap (λ f. decode_control json (f ++ rest)) whole,
        decode_control-framed m payload rest valid (faithful payload wrote) small,
        ap length whole,
        length-framed payload,
      )

  -- What is decoded is within the limits of its fields (`IsWithin`: of the texts' bytes, 128 of a
  -- session's id, 256 of the boot secret, 131072 of a signal's payload and 512 of any other; at most
  -- 16 URIs and 32 extra feature flags), and has taken no more bytes than there are, and no more than
  -- the header's 4 and a payload of 262144.
  pub decode_control-ok :
      (buf : List ℕ) (m : ControlMessage) (consumed : ℕ)
      → decode_control json buf ≡ ok (m, consumed)
      → IsWithin m × (consumed ≤ length buf) × (consumed ≤ 4 + 262144)
  unfolding decode_control decode_frame decode_payload check_envelope
  decode_control-ok [] m n e = absurd (ground arith)
  decode_control-ok (a ∷ []) m n e = absurd (ground arith)
  decode_control-ok (a ∷ b ∷ []) m n e = absurd (ground arith)
  decode_control-ok (a ∷ b ∷ c ∷ []) m n e = absurd (ground arith)
  decode_control-ok (a ∷ b ∷ c ∷ d ∷ rest) m n e =
      elim (Result-cases (json.from_slice (take (from_be_bytes a b c d) rest))) [
        | inl (env, p) ↦
            (validate_field_limits-IsWithin m (ground arith), ground arith, ground arith)
        | inr (error, p) ↦ absurd (ground arith)
      ]
