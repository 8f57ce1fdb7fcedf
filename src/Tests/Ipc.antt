-- ===== src/Tests/Ipc.antt =====
-- The properties of the control channel at concrete messages.
use remotelink.Prelude.{ℕ, ◌+◌, ◌≤◌, ◌≡◌, refl, List, [], ◌∷◌, ◌++◌, ok, length, take}
use remotelink.Auth.Transcript.{be_bytes}
use remotelink.Ipc.Message.{ControlMessage, new}
use remotelink.Ipc.Limits.{validate_field_limits, check_str, check_size}
use remotelink.Ipc.Limits.Bounds.{IsWithin}
use remotelink.Ipc.Codec.{
  Json, Connection, encode_frame, encode_control, decode_control, decode_frame, decode_payload,
  check_envelope, from_be_bytes, read_control, write_control, unexpected_eof,
}
use remotelink.Ipc.Codec.RoundTrip.{Faithful, decode_control-ok}
use remotelink.Ipc.Codec.Stream.{
  as_read, read_control-decode_control, write_all, read_all, read_all-write_all,
}

abbrev stop : ControlMessage
stop = ControlMessage.stop_media (record { session_id = "s1" })

-- A stand-in that knows one message, whose JSON is the digit 1.
abbrev one_json : Json
one_json = record { to_vec = λ e. ok (b'1' ∷ []); from_slice = λ bytes. ok (new stop) }

stop-Faithful : Faithful one_json stop
unfolding Faithful
stop-Faithful payload e = refl

abbrev frame : List ℕ
frame = 0 ∷ 0 ∷ 0 ∷ 1 ∷ b'1' ∷ []

decode_control-ok_example : IsWithin stop × (5 ≤ length frame) × (5 ≤ 4 + 262144)
unfolding decode_control decode_frame decode_payload from_be_bytes check_envelope new
    validate_field_limits check_str check_size take
decode_control-ok_example = decode_control-ok one_json frame stop 5 refl

abbrev cut_off : Connection
cut_off = record { bytes = 0 ∷ 0 ∷ 0 ∷ 2 ∷ b'1' ∷ []; end = unexpected_eof }

read_control-decode_control_example :
    (read_control one_json cut_off).1
    ≡ as_read unexpected_eof (decode_control one_json cut_off.bytes)
read_control-decode_control_example = read_control-decode_control one_json cut_off

read_all-write_all_example :
    read_all one_json 2 (record { bytes = frame ++ frame; end = unexpected_eof })
    ≡ ok (stop ∷ stop ∷ [])
unfolding write_all write_control encode_control encode_frame validate_field_limits check_str
    check_size be_bytes
read_all-write_all_example =
    read_all-write_all one_json (stop ∷ stop ∷ []) (frame ++ frame) unexpected_eof
      (stop-Faithful, (stop-Faithful, tt)) refl
