-- ===== src/Ipc/Codec.antt =====
-- The frames of the control channel (packages/platform-windows/src/ipc/codec.rs): a length of four
-- bytes, then the envelope in JSON. serde_json is a library, and a parameter. Bytes are numbers
-- below 256. A connection is the bytes that it still delivers, with the kind of error it ends with.
pub mod RoundTrip
pub mod Stream
use remotelink.Prelude.{
  ℕ, ◌+◌, ◌*◌, ◌^◌, ◌≡◌, not, String, Option, none, some, List, [], ◌∷◌, ◌++◌, Result, ok, err, ltb,
  leb, ◌==◌, if◌then◌else◌, length, take, drop,
}
use remotelink.Auth.Transcript.{be_bytes}
use remotelink.Ipc.Message.{ControlMessage, ControlEnvelope, control_ipc_version, new}
use remotelink.Ipc.Limits.{FieldLimitError, validate_field_limits}

abbrev pub max_frame_payload : ℕ
max_frame_payload = 256 * 1024

abbrev u32_max : ℕ
u32_max = 4294967295

-- `io::ErrorKind`, as far as the source tells the kinds apart
pub data IoError : Type 0 where
  unexpected_eof : IoError
  other_kind : String → IoError

-- serde_json on envelopes, with its errors as texts
pub record Json : Type 0 where
  pub to_vec : ControlEnvelope → Result (List ℕ) String
  pub from_slice : List ℕ → Result ControlEnvelope String

pub data CodecError : Type 0 where
  payload_too_large : ℕ → CodecError
  incomplete : ℕ → ℕ → CodecError
  header_truncated : CodecError
  unsupported_version : ℕ → CodecError
  field_limit : FieldLimitError → CodecError
  json_encode : String → CodecError
  json_decode : String → CodecError
  io : IoError → CodecError

infixl 5 ◌>>=◌ ◌>>◌
abbrev pub ◌>>=◌ :
    {A B : Type 0} → Result A CodecError → (A → Result B CodecError) → Result B CodecError
ok a >>= f = f a
err e >>= f = err e

abbrev pub ◌>>◌ :
    {B : Type 0} → Result (Unit {0}) CodecError → Result B CodecError → Result B CodecError
m >> k = m >>= λ _. k

abbrev pub ensure : Result (Unit {0}) FieldLimitError → Result (Unit {0}) CodecError
ensure (ok _) = ok tt
ensure (err e) = err (field_limit e)

-- `u32::from_be_bytes`
unfoldable pub from_be_bytes : ℕ → ℕ → ℕ → ℕ → ℕ
from_be_bytes a b c d = a * 2 ^ 24 + b * 2 ^ 16 + c * 2 ^ 8 + d

pub record Connection : Type 0 where
  pub bytes : List ℕ
  pub end : IoError

-- `Read::read_exact`
unfoldable pub read_exact : ℕ → Connection → Connection × Result (List ℕ) IoError
read_exact n r =
    if leb n (length r.bytes)
    then (record r { bytes = drop n r.bytes }, ok (take n r.bytes))
    else (record r { bytes = [] }, err r.end)

-- The error of the header, on which an end of the file is told apart
unfoldable pub header_error : IoError → CodecError
header_error unexpected_eof = header_truncated
header_error (other_kind k) = io (other_kind k)

-- What is checked of an envelope that has been read
unfoldable pub check_envelope : ControlEnvelope → Result ControlMessage CodecError
unfolding validate_field_limits
check_envelope env =
    if not (env.v == control_ipc_version)
    then err (unsupported_version env.v)
    else do ensure (validate_field_limits env.message); ok env.message

module _ (json : Json) where
  abbrev pub parse : List ℕ → Result ControlEnvelope CodecError
  parse payload = elim (json.from_slice payload) [ ok e ↦ ok e | err e ↦ err (json_decode e) ]

  unfoldable pub encode_frame : ControlEnvelope → Result (List ℕ) CodecError
  unfolding be_bytes
  encode_frame value = elim (json.to_vec value) [
    | err e ↦ err (json_encode e)
    | ok payload ↦
        if ltb u32_max (length payload)
        then err (payload_too_large u32_max)
        else if ltb max_frame_payload (length payload)
        then err (payload_too_large (length payload))
        else ok (be_bytes (length payload) ++ payload)
  ]

  -- Behind the header
  unfoldable pub decode_payload : ℕ → List ℕ → Result (ControlEnvelope × ℕ) CodecError
  decode_payload n rest =
      if ltb max_frame_payload n
      then err (payload_too_large n)
      else if ltb (4 + length rest) (4 + n)
      then err (incomplete (4 + n) (4 + length rest))
      else do value ← parse (take n rest); ok (value, 4 + n)

  unfoldable pub decode_frame : List ℕ → Result (ControlEnvelope × ℕ) CodecError
  unfolding from_be_bytes decode_payload
  decode_frame (a ∷ b ∷ c ∷ d ∷ rest) = decode_payload (from_be_bytes a b c d) rest
  decode_frame _ = err header_truncated

  unfoldable pub encode_control : ControlMessage → Result (List ℕ) CodecError
  unfolding encode_frame validate_field_limits new
  encode_control msg = do ensure (validate_field_limits msg); encode_frame (new msg)

  unfoldable pub decode_control : List ℕ → Result (ControlMessage × ℕ) CodecError
  unfolding decode_frame check_envelope
  decode_control buf = do
    (env, consumed) ← decode_frame buf
    message ← check_envelope env
    ok (message, consumed)

  -- The writer is the bytes that have been written. A write does not fail.
  unfoldable pub write_control : ControlMessage → List ℕ → Result (List ℕ) CodecError
  unfolding encode_control
  write_control msg w = do frame ← encode_control msg; ok (w ++ frame)

  -- Once the payload has been read
  unfoldable pub read_value :
      Connection × Result (List ℕ) IoError → Connection × Result ControlEnvelope CodecError
  read_value (r, ok payload) = (r, parse payload)
  read_value (r, err e) = (r, err (io e))

  -- Behind the header
  unfoldable pub read_payload : ℕ → Connection → Connection × Result ControlEnvelope CodecError
  unfolding read_exact read_value
  read_payload n r =
      if ltb max_frame_payload n
      then (r, err (payload_too_large n))
      else if n == 0
      then (r, parse [])
      else read_value (read_exact n r)

  -- Once the header has been read
  unfoldable pub read_body :
      Connection × Result (List ℕ) IoError → Connection × Result ControlEnvelope CodecError
  unfolding from_be_bytes header_error read_payload
  read_body (r, ok (a ∷ b ∷ c ∷ d ∷ _)) = read_payload (from_be_bytes a b c d) r
  read_body (r, ok _) = (r, err header_truncated)
  read_body (r, err e) = (r, err (header_error e))

  unfoldable pub read_frame : Connection → Connection × Result ControlEnvelope CodecError
  unfolding read_exact read_body
  read_frame r = read_body (read_exact 4 r)

  unfoldable pub read_control : Connection → Connection × Result ControlMessage CodecError
  unfolding read_frame check_envelope
  read_control r = let (r', result) = read_frame r in (r', result >>= check_envelope)
