-- ===== src/Ipc/Message.antt =====
-- The control messages (packages/platform-windows/src/ipc/message.rs). An f64 stands as the number
-- that its 64 bits spell; nothing computes with it here.
use remotelink.Prelude.{ℕ, String, Bool, Option, List}

abbrev pub control_ipc_version : ℕ
control_ipc_version = 1

abbrev F64 : Type 0
F64 = ℕ

pub record FeatureFlags : Type 0 where
  pub synthetic_media : Bool
  pub stats_export : Bool
  pub extra : List String

pub record AttachSession : Type 0 where
  pub session_id : String
  pub viewer_label : Option String
  pub feature_flags : FeatureFlags
  pub turn_uris : List String
  pub boot_secret : Option String

pub record DetachSession : Type 0 where
  pub session_id : String
  pub reason : Option String

pub data SignalHop : Type 0 where
  service : SignalHop
  agent : SignalHop

pub record SignalForward : Type 0 where
  pub session_id : String
  pub kind : String
  pub payload : String
  pub from : SignalHop

pub record SetPolicy : Type 0 where
  pub session_id : String
  pub enable_input : Bool
  pub unattended : Bool
  pub max_bitrate_bps : ℕ
  pub disable_hw_encode : Bool

pub record StartMedia : Type 0 where
  pub session_id : String
  pub display_id : Option String

pub record StopMedia : Type 0 where
  pub session_id : String

pub record QueryStats : Type 0 where
  pub session_id : Option String

pub record StatsPush : Type 0 where
  pub session_id : String
  pub rtt_ms : Option F64
  pub video_bitrate_bps : Option ℕ
  pub audio_bitrate_bps : Option ℕ
  pub ice_path : Option String
  pub av_skew_ms : Option F64
  pub fps : Option F64
  pub loss : Option F64

pub record ShowSessionChrome : Type 0 where
  pub session_id : String
  pub visible : Bool
  pub label : Option String

pub record ShutdownSession : Type 0 where
  pub session_id : String
  pub reason : Option String

pub data KillSwitchSource : Type 0 where
  unspecified : KillSwitchSource
  hotkey : KillSwitchSource
  tray : KillSwitchSource
  policy : KillSwitchSource

pub record KillSwitch : Type 0 where
  pub session_id : Option String
  pub disable_unattended : Bool
  pub source : KillSwitchSource

pub record LocalConfirmResult : Type 0 where
  pub session_id : String
  pub accepted : Bool
  pub reason : Option String

pub record Ack : Type 0 where
  pub for_method : Option String
  pub session_id : Option String

pub record ControlError : Type 0 where
  pub code : String
  pub message : String
  pub session_id : Option String

pub data ControlMessage : Type 0 where
  attach_session : AttachSession → ControlMessage
  detach_session : DetachSession → ControlMessage
  signal_forward : SignalForward → ControlMessage
  set_policy : SetPolicy → ControlMessage
  start_media : StartMedia → ControlMessage
  stop_media : StopMedia → ControlMessage
  query_stats : QueryStats → ControlMessage
  stats_push : StatsPush → ControlMessage
  show_session_chrome : ShowSessionChrome → ControlMessage
  shutdown_session : ShutdownSession → ControlMessage
  kill_switch : KillSwitch → ControlMessage
  local_confirm_result : LocalConfirmResult → ControlMessage
  ack : Ack → ControlMessage
  error : ControlError → ControlMessage

unfoldable pub method_name : ControlMessage → String
method_name (attach_session _) = "attach_session"
method_name (detach_session _) = "detach_session"
method_name (signal_forward _) = "signal_forward"
method_name (set_policy _) = "set_policy"
method_name (start_media _) = "start_media"
method_name (stop_media _) = "stop_media"
method_name (query_stats _) = "query_stats"
method_name (stats_push _) = "stats_push"
method_name (show_session_chrome _) = "show_session_chrome"
method_name (shutdown_session _) = "shutdown_session"
method_name (kill_switch _) = "kill_switch"
method_name (local_confirm_result _) = "local_confirm_result"
method_name (ack _) = "ack"
method_name (error _) = "error"

pub record ControlEnvelope : Type 0 where
  pub v : ℕ
  pub message : ControlMessage

unfoldable pub new : ControlMessage → ControlEnvelope
new message = record { v = control_ipc_version; message = message }
