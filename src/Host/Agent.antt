-- ===== src/Host/Agent.antt =====
-- The session agent's control state (AgentSessionState in apps/host/src/agent.rs): the flags that
-- the service's commands set, behind the session id and the kill switch.
pub mod Latches
use remotelink.Prelude.{
  Bool, true, false, not, ◌&&◌, Option, none, some, if◌then◌else◌, String, String_discrete, List,
  [], ◌∷◌,
}
use remotelink.Ipc.Message.{
  ControlMessage, Ack, ControlError, StatsPush, KillSwitch, attach_session, detach_session,
  signal_forward, set_policy, start_media, stop_media, query_stats, stats_push, show_session_chrome,
  shutdown_session, kill_switch, local_confirm_result,
}

pub record AgentSessionState : Type 0 where
  pub session_id : Option String
  pub media_started : Bool
  pub enable_input : Bool
  pub unattended : Bool
  pub chrome_visible : Bool
  pub killed : Bool
  pub unattended_disabled : Bool

abbrev pub default_state : AgentSessionState
default_state = record {
  session_id = none;
  media_started = false;
  enable_input = false;
  unattended = false;
  chrome_visible = false;
  killed = false;
  unattended_disabled = false;
}

unfoldable pub ack : String → Option String → ControlMessage
ack method session_id =
    ControlMessage.ack (record { for_method = some method; session_id = session_id })

unfoldable pub error : String → String → Option String → ControlMessage
error code message session_id =
    ControlMessage.error (record { code = code; message = message; session_id = session_id })

unfoldable pub clear_session_keep_unattended_latch : AgentSessionState → AgentSessionState
clear_session_keep_unattended_latch st = record default_state {
  unattended_disabled = st.unattended_disabled;
}

unfoldable pub reenable_unattended_local : AgentSessionState → AgentSessionState
reenable_unattended_local st = record st { unattended_disabled = false }

abbrev pub is_same : String → String → Bool
is_same a b = elim (String_discrete a b) [ yes _ ↦ true | no _ ↦ false ]

unfoldable pub require_session : String → AgentSessionState → Option ControlMessage
unfolding error
require_session id st = elim st.session_id [
  | none ↦ some (error "not_attached" "no session attached" (some id))
  | some cur ↦
      if is_same cur id
      then none
      else some (error "session_mismatch" "session id does not match attached session" (some id))
]

unfoldable pub require_not_killed : Option String → AgentSessionState → Option ControlMessage
unfolding error
require_not_killed id st =
    if st.killed then some (error "killed" "kill-switch is latched" id) else none

-- A new state with its reply
abbrev pub Handled : Type 0
Handled = AgentSessionState × ControlMessage

-- `if let Some(e) = .. { return e; }`
abbrev pub unless_refused : Option ControlMessage → AgentSessionState → Handled → Handled
unless_refused none st handled = handled
unless_refused (some e) st handled = (st, e)

unfoldable pub empty_stats : String → ControlMessage
empty_stats id = stats_push (record {
  session_id = id;
  rtt_ms = none;
  video_bitrate_bps = none;
  audio_bitrate_bps = none;
  ice_path = none;
  av_skew_ms = none;
  fps = none;
  loss = none;
})

-- The id that the stats are for: the query's, or else the session's, or else the empty text.
abbrev or_default : Option String → Option String → String
or_default (some id) _ = id
or_default none (some id) = id
or_default none none = ""

abbrev pub is_attached : Option String → Bool
is_attached none = false
is_attached (some _) = true

-- The kill switch once it is known to apply
unfoldable pub kill : KillSwitch → AgentSessionState → Handled
unfolding ack
kill k st = (
  record st {
    killed = true;
    media_started = false;
    enable_input = false;
    unattended = false;
    chrome_visible = false;
    unattended_disabled = if k.disable_unattended then true else st.unattended_disabled;
  },
  ack "kill_switch" k.session_id,
)

-- Whether it applies: an id that is given has to be the session's.
unfoldable pub handle_kill_switch : KillSwitch → AgentSessionState → Handled
unfolding error kill
handle_kill_switch k st = elim k.session_id [
  | none ↦ kill k st
  | some target ↦ elim st.session_id [
    | none ↦ (st, error "not_attached" "no session attached for kill-switch" (some target))
    | some cur ↦
        if is_same target cur
        then kill k st
        else (st, error "session_mismatch" "kill-switch session id does not match" (some target))
  ]
]

-- The reply to a message that is no command for the agent
unfoldable pub unexpected : AgentSessionState → Handled
unfolding error
unexpected st = (st, error "unexpected" "message not expected as agent command" st.session_id)

unfoldable pub handle : ControlMessage → AgentSessionState → Handled
unfolding ack error clear_session_keep_unattended_latch require_session require_not_killed
    empty_stats handle_kill_switch unexpected
handle (attach_session a) st =
    if is_attached st.session_id && not st.killed
    then (st, error "busy" "session already active on host" (some a.session_id))
    else (
      record st {
        session_id = some a.session_id;
        media_started = false;
        enable_input = false;
        unattended = false;
        chrome_visible = true;
        killed = false;
      },
      ack "attach_session" (some a.session_id),
    )
handle (detach_session d) st =
    unless_refused (require_session d.session_id st) st
      (clear_session_keep_unattended_latch st, ack "detach_session" (some d.session_id))
handle (set_policy p) st = unless_refused (require_session p.session_id st) st (
    unless_refused (require_not_killed (some p.session_id) st) st (
      if p.unattended && st.unattended_disabled
      then (
        st,
        error "unattended_disabled"
            "unattended disabled by local kill-switch until re-enabled on host" (some p.session_id),
      )
      else (
        record st { enable_input = p.enable_input; unattended = p.unattended },
        ack "set_policy" (some p.session_id),
      )))
handle (start_media s) st = unless_refused (require_session s.session_id st) st (
    unless_refused (require_not_killed (some s.session_id) st) st
      (record st { media_started = true }, ack "start_media" (some s.session_id)))
handle (stop_media s) st =
    unless_refused (require_session s.session_id st) st
      (record st { media_started = false }, ack "stop_media" (some s.session_id))
handle (query_stats q) st = elim q.session_id [
  | some id ↦ unless_refused (require_session id st) st (st, empty_stats id)
  | none ↦
      if not (is_attached st.session_id)
      then (st, error "not_attached" "no session attached" none)
      else (st, empty_stats (or_default q.session_id st.session_id))
]
handle (show_session_chrome c) st = unless_refused (require_session c.session_id st) st (
    if st.killed
    then (
      st,
      error "killed" "kill-switch is latched; chrome commands refused until re-attach"
          (some c.session_id),
    )
    else if not c.visible
    then (
      record st { chrome_visible = true },
      error "chrome_mandatory" "session chrome is mandatory while session is live"
          (some c.session_id),
    )
    else (record st { chrome_visible = true }, ack "show_session_chrome" (some c.session_id)))
handle (shutdown_session s) st =
    unless_refused (require_session s.session_id st) st
      (clear_session_keep_unattended_latch st, ack "shutdown_session" (some s.session_id))
handle (kill_switch k) st = handle_kill_switch k st
handle (signal_forward s) st = unless_refused (require_session s.session_id st) st (
    unless_refused (require_not_killed (some s.session_id) st) st
      (st, ack "signal_forward" (some s.session_id)))
handle (local_confirm_result _) st = unexpected st
handle (stats_push _) st = unexpected st
handle (ControlMessage.ack _) st = unexpected st
handle (ControlMessage.error _) st = unexpected st

unfoldable pub handle_all : List ControlMessage → AgentSessionState → AgentSessionState
unfolding handle
handle_all [] st = st
handle_all (m ∷ ms) st = handle_all ms ((handle m st).0)
