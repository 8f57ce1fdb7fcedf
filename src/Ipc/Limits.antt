-- ===== src/Ipc/Limits.antt =====
-- The size limits of the control messages' fields (`validate_field_limits` in
-- packages/platform-windows/src/ipc/message.rs). `len` is `str::len`, the bytes of the UTF-8 form.
pub mod Bounds
use remotelink.Prelude.{
  ℕ, ◌*◌, String, Option, none, some, List, [], ◌∷◌, Result, ok, err, ltb, if◌then◌else◌, length,
}
use Prim.Native.String.{len}
use remotelink.Ipc.Message.{
  ControlMessage, attach_session, detach_session, signal_forward, set_policy, start_media,
  stop_media, query_stats, stats_push, show_session_chrome, shutdown_session, kill_switch,
  local_confirm_result, ack, error,
}

abbrev pub max_session_id_len : ℕ
max_session_id_len = 128

abbrev pub max_short_string_len : ℕ
max_short_string_len = 512

abbrev pub max_signal_payload_len : ℕ
max_signal_payload_len = 128 * 1024

abbrev pub max_turn_uris : ℕ
max_turn_uris = 16

abbrev pub max_turn_uri_len : ℕ
max_turn_uri_len = 512

abbrev pub max_feature_extra : ℕ
max_feature_extra = 32

abbrev pub max_boot_secret_len : ℕ
max_boot_secret_len = 256

pub record FieldLimitError : Type 0 where
  pub field : String
  pub got : ℕ
  pub max : ℕ

abbrev pub Check : Type 0
Check = Result (Unit {0}) FieldLimitError

-- `?`
infixr 5 ◌>>◌
abbrev ◌>>◌ : Check → Check → Check
ok _ >> k = k
err e >> k = err e

unfoldable pub check_size : String → ℕ → ℕ → Check
check_size field got max =
    if ltb max got then err (record { field = field; got = got; max = max }) else ok tt

unfoldable pub check_str : String → String → ℕ → Check
unfolding check_size
check_str field value max = check_size field (len value) max

-- `if let Some(v) = .. { check_str(..)?; }`
unfoldable pub check_opt : String → Option String → ℕ → Check
unfolding check_str
check_opt field none max = ok tt
check_opt field (some v) max = check_str field v max

-- `for s in .. { check_str(..)?; }`
unfoldable pub check_each : String → List String → ℕ → Check
unfolding check_str
check_each field [] max = ok tt
check_each field (v ∷ vs) max = check_str field v max >> check_each field vs max

unfoldable pub validate_field_limits : ControlMessage → Check
unfolding check_size check_str check_opt check_each
validate_field_limits (attach_session m) =
    check_str "session_id" m.session_id max_session_id_len
    >> check_opt "viewer_label" m.viewer_label max_short_string_len
    >> check_opt "boot_secret" m.boot_secret max_boot_secret_len
    >> check_size "turn_uris" (length m.turn_uris) max_turn_uris
    >> check_each "turn_uris[]" m.turn_uris max_turn_uri_len
    >> check_size "feature_flags.extra" (length m.feature_flags.extra) max_feature_extra
    >> check_each "feature_flags.extra[]" m.feature_flags.extra max_short_string_len
validate_field_limits (detach_session m) =
    check_str "session_id" m.session_id max_session_id_len
    >> check_opt "reason" m.reason max_short_string_len
validate_field_limits (signal_forward m) =
    check_str "session_id" m.session_id max_session_id_len
    >> check_str "kind" m.kind max_short_string_len
    >> check_str "payload" m.payload max_signal_payload_len
validate_field_limits (set_policy m) = check_str "session_id" m.session_id max_session_id_len
validate_field_limits (start_media m) =
    check_str "session_id" m.session_id max_session_id_len
    >> check_opt "display_id" m.display_id max_short_string_len
validate_field_limits (stop_media m) = check_str "session_id" m.session_id max_session_id_len
validate_field_limits (query_stats m) = check_opt "session_id" m.session_id max_session_id_len
validate_field_limits (stats_push m) =
    check_str "session_id" m.session_id max_session_id_len
    >> check_opt "ice_path" m.ice_path max_short_string_len
validate_field_limits (show_session_chrome m) =
    check_str "session_id" m.session_id max_session_id_len
    >> check_opt "label" m.label max_short_string_len
validate_field_limits (shutdown_session m) =
    check_str "session_id" m.session_id max_session_id_len
    >> check_opt "reason" m.reason max_short_string_len
validate_field_limits (kill_switch m) = check_opt "session_id" m.session_id max_session_id_len
validate_field_limits (local_confirm_result m) =
    check_str "session_id" m.session_id max_session_id_len
    >> check_opt "reason" m.reason max_short_string_len
validate_field_limits (ack m) =
    check_opt "for_method" m.for_method max_short_string_len
    >> check_opt "session_id" m.session_id max_session_id_len
validate_field_limits (error m) =
    check_str "code" m.code max_short_string_len
    >> check_str "message" m.message max_short_string_len
    >> check_opt "session_id" m.session_id max_session_id_len
