-- ===== src/Ipc/Limits/Bounds.antt =====
-- What the limits of the control messages' fields come to, message by message.
use remotelink.Prelude.{ℕ, ◌≤◌, ◌≡◌, String, Option, none, some, List, [], ◌∷◌, ok, length, arith}
use Prim.Native.String.{len}
use remotelink.Ipc.Message.{
  ControlMessage, attach_session, detach_session, signal_forward, set_policy, start_media,
  stop_media, query_stats, stats_push, show_session_chrome, shutdown_session, kill_switch,
  local_confirm_result, ack, error,
}
use remotelink.Ipc.Limits.{check_size, check_str, check_opt, check_each, validate_field_limits}

-- A text that is given is no longer.
unfoldable pub IsOptWithin : ℕ → Option String → Type 0
IsOptWithin max none = Unit {0}
IsOptWithin max (some v) = len v ≤ max

-- No text of the list is longer.
unfoldable pub AreWithin : ℕ → List String → Type 0
AreWithin max [] = Unit {0}
AreWithin max (v ∷ vs) = (len v ≤ max) × AreWithin max vs

-- The limits of each message
unfoldable pub IsWithin : ControlMessage → Type 0
IsWithin (attach_session m) =
    (len m.session_id ≤ 128)
    × IsOptWithin 512 m.viewer_label
    × IsOptWithin 256 m.boot_secret
    × (length m.turn_uris ≤ 16)
    × AreWithin 512 m.turn_uris
    × (length m.feature_flags.extra ≤ 32)
    × AreWithin 512 m.feature_flags.extra
IsWithin (detach_session m) = (len m.session_id ≤ 128) × IsOptWithin 512 m.reason
IsWithin (signal_forward m) =
    (len m.session_id ≤ 128) × (len m.kind ≤ 512) × (len m.payload ≤ 131072)
IsWithin (set_policy m) = len m.session_id ≤ 128
IsWithin (start_media m) = (len m.session_id ≤ 128) × IsOptWithin 512 m.display_id
IsWithin (stop_media m) = len m.session_id ≤ 128
IsWithin (query_stats m) = IsOptWithin 128 m.session_id
IsWithin (stats_push m) = (len m.session_id ≤ 128) × IsOptWithin 512 m.ice_path
IsWithin (show_session_chrome m) = (len m.session_id ≤ 128) × IsOptWithin 512 m.label
IsWithin (shutdown_session m) = (len m.session_id ≤ 128) × IsOptWithin 512 m.reason
IsWithin (kill_switch m) = IsOptWithin 128 m.session_id
IsWithin (local_confirm_result m) = (len m.session_id ≤ 128) × IsOptWithin 512 m.reason
IsWithin (ack m) = IsOptWithin 512 m.for_method × IsOptWithin 128 m.session_id
IsWithin (error m) = (len m.code ≤ 512) × (len m.message ≤ 512) × IsOptWithin 128 m.session_id

check_opt-IsOptWithin :
    (field : String) (o : Option String) (max : ℕ)
    → check_opt field o max ≡ ok tt
    → IsOptWithin max o
unfolding check_opt check_str check_size IsOptWithin
check_opt-IsOptWithin field none max e = tt
check_opt-IsOptWithin field (some v) max e = ground arith

check_each-AreWithin :
    (field : String) (vs : List String) (max : ℕ)
    → check_each field vs max ≡ ok tt
    → AreWithin max vs
unfolding check_each check_str check_size AreWithin
check_each-AreWithin field [] max e = tt
check_each-AreWithin field (v ∷ vs) max e =
    (ground arith, check_each-AreWithin field vs max (ground arith))

pub validate_field_limits-IsWithin :
    (m : ControlMessage) → validate_field_limits m ≡ ok tt → IsWithin m
unfolding validate_field_limits check_size check_str IsWithin
validate_field_limits-IsWithin (detach_session m) e =
    ground (arith, check_opt-IsOptWithin "reason" m.reason 512)
validate_field_limits-IsWithin (signal_forward m) e = ground arith
validate_field_limits-IsWithin (set_policy m) e = ground arith
validate_field_limits-IsWithin (start_media m) e =
    ground (arith, check_opt-IsOptWithin "display_id" m.display_id 512)
validate_field_limits-IsWithin (stop_media m) e = ground arith
validate_field_limits-IsWithin (query_stats m) e = check_opt-IsOptWithin _ m.session_id 128 e
validate_field_limits-IsWithin (stats_push m) e =
    ground (arith, check_opt-IsOptWithin "ice_path" m.ice_path 512)
validate_field_limits-IsWithin (show_session_chrome m) e =
    ground (arith, check_opt-IsOptWithin "label" m.label 512)
validate_field_limits-IsWithin (shutdown_session m) e =
    ground (arith, check_opt-IsOptWithin "reason" m.reason 512)
validate_field_limits-IsWithin (kill_switch m) e = check_opt-IsOptWithin _ m.session_id 128 e
validate_field_limits-IsWithin (local_confirm_result m) e =
    ground (arith, check_opt-IsOptWithin "reason" m.reason 512)
validate_field_limits-IsWithin (ack m) e = ground (
  arith,
  check_opt-IsOptWithin "for_method" m.for_method 512,
  check_opt-IsOptWithin "session_id" m.session_id 128,
)
validate_field_limits-IsWithin (error m) e =
    ground (arith, check_opt-IsOptWithin "session_id" m.session_id 128)
validate_field_limits-IsWithin (attach_session m) e = ground (
  arith,
  check_opt-IsOptWithin "viewer_label" m.viewer_label 512,
  check_opt-IsOptWithin "boot_secret" m.boot_secret 256,
  check_each-AreWithin "turn_uris[]" m.turn_uris 512,
  check_each-AreWithin "feature_flags.extra[]" m.feature_flags.extra 512,
)
