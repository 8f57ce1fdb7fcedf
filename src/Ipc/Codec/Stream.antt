-- ===== src/Ipc/Codec/Stream.antt =====
-- Reading from a connection, against decoding a buffer, and series of messages.
use remotelink.Prelude.{
  Result-cases, ℕ, zero, suc, ◌≤◌, ◌≡◌, refl, sym, ◌∙◌, ap, List, [], ◌∷◌, ◌++◌, Result, ok, err,
  length, take, drop, take-append, drop-append, length-append, All, arith, inl, inr,
}
use mathlib.Core.List.{append_assoc, append-nil}
use remotelink.Auth.Transcript.{be_bytes}
use remotelink.Ipc.Message.{ControlMessage, ControlEnvelope, new}
use remotelink.Ipc.Limits.{validate_field_limits}
use remotelink.Ipc.Codec.{
  Json, CodecError, IoError, Connection, decode_frame, decode_payload, encode_control,
  decode_control, check_envelope, write_control, read_exact, read_value, read_payload, read_body,
  read_frame, read_control, from_be_bytes, header_error, max_frame_payload, ◌>>=◌,
  payload_too_large, incomplete, header_truncated, unsupported_version, field_limit, json_encode,
  json_decode, io,
}
use remotelink.Ipc.Codec.RoundTrip.{Faithful, encode_control-ok, from_be_bytes-be_bytes}

-- What reading reports where decoding the bytes that are there reports this: a frame that is cut off
-- is the connection's own end.
unfoldable pub as_read : {A : Type 0} → IoError → Result (A × ℕ) CodecError → Result A CodecError
as_read end (ok (m, consumed)) = ok m
as_read end (err (incomplete need have)) = err (io end)
as_read end (err header_truncated) = err (header_error end)
as_read end (err (payload_too_large n)) = err (payload_too_large n)
as_read end (err (unsupported_version v)) = err (unsupported_version v)
as_read end (err (field_limit e)) = err (field_limit e)
as_read end (err (json_encode e)) = err (json_encode e)
as_read end (err (json_decode e)) = err (json_decode e)
as_read end (err (io e)) = err (io e)

module _ (json : Json) where
  read_payload-decode_payload :
      (n : ℕ) (rest : List ℕ) (end : IoError)
      → (read_payload json n (record { bytes = rest; end = end })).1
        ≡ as_read end (decode_payload json n rest)
  unfolding as_read read_payload read_value read_exact decode_payload take
  read_payload-decode_payload zero rest end = ground arith
  read_payload-decode_payload (suc n) rest end = ground arith

  read_frame-decode_frame :
      (bytes : List ℕ) (end : IoError)
      → (read_frame json (record { bytes = bytes; end = end })).1
        ≡ as_read end (decode_frame json bytes)
  unfolding as_read read_frame read_body read_exact decode_frame take drop
  read_frame-decode_frame [] end = refl
  read_frame-decode_frame (a ∷ []) end = refl
  read_frame-decode_frame (a ∷ b ∷ []) end = refl
  read_frame-decode_frame (a ∷ b ∷ c ∷ []) end = refl
  read_frame-decode_frame (a ∷ b ∷ c ∷ d ∷ rest) end =
      ground (arith, read_payload-decode_payload (from_be_bytes a b c d) rest end)

  as_read-check_envelope :
      (end : IoError) (frame : Result (ControlEnvelope × ℕ) CodecError)
      → as_read end
          (do (env, consumed) ← frame; message ← check_envelope env; ok (message, consumed))
        ≡ (as_read end frame >>= check_envelope)
  unfolding as_read check_envelope
  as_read-check_envelope end (ok (env, consumed)) = ground arith
  as_read-check_envelope end (err (incomplete _ _)) = refl
  as_read-check_envelope end (err header_truncated) = refl
  as_read-check_envelope end (err (payload_too_large _)) = refl
  as_read-check_envelope end (err (unsupported_version _)) = refl
  as_read-check_envelope end (err (field_limit _)) = refl
  as_read-check_envelope end (err (json_encode _)) = refl
  as_read-check_envelope end (err (json_decode _)) = refl
  as_read-check_envelope end (err (io _)) = refl

  -- Reading from a connection agrees with decoding the bytes that it delivers, on every input: the
  -- message and the errors are the same, except that a frame that is cut off is reported as the
  -- connection's end.
  pub read_control-decode_control :
      (r : Connection) → (read_control json r).1 ≡ as_read r.end (decode_control json r.bytes)
  unfolding read_control decode_control
  read_control-decode_control r =
      ap (λ x. x >>= check_envelope) (read_frame-decode_frame r.bytes r.end)
      ∙ sym (as_read-check_envelope r.end (decode_frame json r.bytes))

  -- A series of messages, written one after the other.
  unfoldable pub write_all : List ControlMessage → List ℕ → Result (List ℕ) CodecError
  unfolding write_control
  write_all [] w = ok w
  write_all (m ∷ ms) w = do w' ← write_control json m w; write_all ms w'

  -- As many messages as the number says, read one after the other.
  unfoldable pub read_all : ℕ → Connection → Result (List ControlMessage) CodecError
  unfolding read_control
  read_all zero r = ok []
  read_all (suc n) r =
      let (r', result) = read_control json r in do m ← result; ms ← read_all n r'; ok (m ∷ ms)

  read_payload-append :
      (m : ControlMessage) (payload rest : List ℕ) (end : IoError)
      → length payload ≤ max_frame_payload
      → json.from_slice payload ≡ ok (new m)
      → read_payload json (length payload) (record { bytes = payload ++ rest; end = end })
        ≡ (record { bytes = rest; end = end }, ok (new m))
  unfolding read_payload read_value read_exact
  read_payload-append m [] rest end small p = ground (arith)
  read_payload-append m (b ∷ payload) rest end small p = ground (
    arith,
    length-append (b ∷ payload) rest,
    take-append (b ∷ payload) rest,
    drop-append (b ∷ payload) rest,
  )

  read_control-framed :
      (m : ControlMessage) (payload rest : List ℕ) (end : IoError)
      → validate_field_limits m ≡ ok tt
      → json.from_slice payload ≡ ok (new m)
      → length payload ≤ max_frame_payload
      → read_control json
          (record { bytes = (be_bytes (length payload) ++ payload) ++ rest; end = end })
        ≡ (record { bytes = rest; end = end }, ok m)
  unfolding read_control read_frame read_body read_exact be_bytes check_envelope new take drop
  read_control-framed m payload rest end valid p small = ground (
    arith,
    from_be_bytes-be_bytes (length payload) small,
    read_payload-append m payload rest end small p,
  )

  read_all_after :
      (ms : List ControlMessage) (w bytes : List ℕ) (end : IoError)
      → All (Faithful json) ms
      → write_all ms w ≡ ok bytes
      → (frames : List ℕ) × (bytes ≡ w ++ frames)
        × (read_all (length ms) (record { bytes = frames; end = end }) ≡ ok ms)
  unfolding write_all read_all write_control
  read_all_after [] w bytes end faithful e = ([], ground (arith, append-nil w), refl)
  read_all_after (m ∷ ms) w bytes end (faithful, rest) e =
      elim (Result-cases (encode_control json m)) [
        | inr (error, p) ↦ absurd (ground arith)
        | inl (frame, p) ↦
            let (frames, wrote, read) =
              read_all_after ms (w ++ frame) bytes end rest (ground arith) in
            let (payload, valid, js, small, whole) = encode_control-ok json m frame p in
            (
              frame ++ frames,
              wrote ∙ append_assoc w frame frames,
              ground (
                arith,
                ap (λ f. read_control json (record { bytes = f ++ frames; end = end })) whole,
                read_control-framed m payload frames end valid
                    (unfold Faithful in faithful payload js) small,
                read,
              ),
            )
      ]

  -- Messages that have been written one after the other are read back, all and in their order,
  -- however the connection ends behind them: provided that the JSON library reads back what it wrote
  -- for each.
  pub read_all-write_all :
      (ms : List ControlMessage) (bytes : List ℕ) (end : IoError)
      → All (Faithful json) ms
      → write_all ms [] ≡ ok bytes
      → read_all (length ms) (record { bytes = bytes; end = end }) ≡ ok ms
  read_all-write_all ms bytes end faithful e =
      let (frames, wrote, read) = read_all_after ms [] bytes end faithful e in
      ap (λ b. read_all (length ms) (record { bytes = b; end = end })) wrote ∙ read
