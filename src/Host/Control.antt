-- ===== src/Host/Control.antt =====
-- The agent session (AgentSession in apps/host/src/agent.rs): the control state, with the session
-- manager that it drives, and the gate of the control loop (apps/host/src/control_loop.rs). What the
-- transport answers is an argument.
pub mod Input
pub mod Refusals
use remotelink.Prelude.{
  ℕ, ◌+◌, ◌*◌, ◌%◌, ◌^◌, min, Bool, true, false, not, ◌&&◌, ◌||◌, Option, none, some, String,
  String_discrete, List, [], ◌∷◌, Result, ok, err, ltb, ◌==◌, if◌then◌else◌,
}
use Prim.Native.String.{len}
use remotelink.Text.{codes, as_bytes}
use remotelink.Auth.Crypto.{Crypto}
use remotelink.Auth.Identity.{input_allowed}
use remotelink.Ipc.Message.{
  ControlMessage, SignalForward, StatsPush, attach_session, detach_session, shutdown_session,
  set_policy, start_media, stop_media, kill_switch, signal_forward, query_stats,
  show_session_chrome, stats_push, local_confirm_result,
}
use remotelink.Host.Agent.{AgentSessionState, default_state, error, handle, is_attached, is_same}
use remotelink.Host.Session.{
  SessionManager, SessionError, with_peer, set_input_policy_enabled, attach, detach,
  start_media as start_manager_media, stop_media as stop_manager_media, process_input_message,
  Injected, InputProcessOutcome, u64_max,
}

pub record AgentSession (Event Injector : Type 0) : Type 0 where
  pub state : AgentSessionState
  pub manager : SessionManager Event Injector

-- What the other crates answer during one command
pub record World (Injector : Type 0) : Type 0 where
  pub reopened : Injector
  pub opened : Result (Unit {0}) SessionError
  pub is_new : Bool
  pub offered : Result (Unit {0}) SessionError
  pub applied : Result (Unit {0}) SessionError
  pub media_counters : ℕ × ℕ
  pub connection : String
  pub show : SessionError → String

abbrev pub is_accepted : ControlMessage → Bool
is_accepted (ControlMessage.ack _) = true
is_accepted (stats_push _) = true
is_accepted _ = false

unfoldable pub is_peer_signal_kind : String → Bool
is_peer_signal_kind kind =
    is_same kind "session_offer" || is_same kind "session_answer" || is_same kind "ice_candidate"

-- `Some(v.saturating_mul(k) as u32)`, if there is anything
abbrev rate : ℕ → ℕ → Option ℕ → Option ℕ
rate v k before = if ltb 0 v then some (min (v * k) u64_max % 2 ^ 32) else before

unfoldable pub enrich : ℕ × ℕ → String → StatsPush → StatsPush
enrich (v, a) connection stats = record stats {
  video_bitrate_bps = rate v 8000 stats.video_bitrate_bps;
  audio_bitrate_bps = rate a 1600 stats.audio_bitrate_bps;
  ice_path = some connection;
}

abbrev enriched_reply : ℕ × ℕ → String → ControlMessage → ControlMessage
enriched_reply counters connection (stats_push stats) =
    stats_push (enrich counters connection stats)
enriched_reply counters connection reply = reply

abbrev signal_reply :
    {Injector : Type 0} → World Injector → ControlMessage → SignalForward → ControlMessage
signal_reply w reply s =
    if is_peer_signal_kind s.kind
    then elim w.applied [ ok _ ↦ reply | err e ↦ error "unexpected" (w.show e) (some s.session_id) ]
    else reply

module _ {Event Injector : Type 0} where
  unfoldable pub new_session : Injector → AgentSession Event Injector
  unfolding with_peer
  new_session injector = record { state = default_state; manager = with_peer injector }

  unfoldable pub input_injection_allowed : AgentSession Event Injector → Bool
  unfolding input_allowed
  input_injection_allowed s =
      s.state.enable_input && not s.state.killed && input_allowed s.manager.identity

  unfoldable pub sync_input_policy : AgentSession Event Injector → AgentSession Event Injector
  unfolding set_input_policy_enabled
  sync_input_policy s = record s {
    manager = set_input_policy_enabled (s.state.enable_input && not s.state.killed) s.manager;
  }

  -- The effect of `start_media` on the state, and the reply
  abbrev media_reply :
      World Injector
      → ControlMessage
      → SessionManager Event Injector × Result (Unit {0}) SessionError
      → AgentSessionState
      → AgentSession Event Injector × ControlMessage
  media_reply w reply (m, ok _) st = (record { state = st; manager = m }, reply)
  media_reply w reply (m, err e) st = (
    record { state = record st { media_started = false }; manager = m },
    error "unexpected" (w.show e) st.session_id,
  )

  -- What an accepted command does to the manager
  unfoldable pub drive :
      World Injector
      → ControlMessage
      → ControlMessage
      → AgentSession Event Injector
      → AgentSession Event Injector × ControlMessage
  unfolding attach detach sync_input_policy start_manager_media stop_manager_media
  drive w (attach_session a) reply s =
      (record s { manager = attach (as_bytes (codes a.session_id)) w.reopened s.manager }, reply)
  drive w (detach_session _) reply s = (record s { manager = detach s.manager }, reply)
  drive w (shutdown_session _) reply s = (record s { manager = detach s.manager }, reply)
  drive w (set_policy _) reply s = (sync_input_policy s, reply)
  drive w (start_media _) reply s =
      media_reply w reply (start_manager_media w.opened w.is_new w.offered s.manager) s.state
  drive w (stop_media _) reply s = (record s { manager = stop_manager_media s.manager }, reply)
  drive w (kill_switch _) reply s =
      (sync_input_policy (record s { manager = detach (stop_manager_media s.manager) }), reply)
  drive w (signal_forward f) reply s = (s, signal_reply w reply f)
  drive w (query_stats _) reply s = (s, enriched_reply w.media_counters w.connection reply)
  drive w _ reply s = (s, reply)

  unfoldable pub handle_control :
      World Injector
      → ControlMessage
      → AgentSession Event Injector
      → AgentSession Event Injector × ControlMessage
  handle_control w msg s =
      let (st, reply) = handle msg s.state in
      let s = record s { state = st } in
      if is_accepted reply then drive w msg reply s else (s, reply)

  -- One input message of `poll_inbound`
  unfoldable pub poll_input :
      (List ℕ → Option Event)
      → (Event → Injector → Injector × Injected)
      → List ℕ
      → AgentSession Event Injector
      → AgentSession Event Injector × InputProcessOutcome
  unfolding sync_input_policy
  poll_input decode try_inject bytes s =
      let s = sync_input_policy s in
      let (m, outcome) = process_input_message decode try_inject bytes s.manager in
      (record s { manager = m }, outcome)

-- `boot_secret_ok`, on the bytes of the texts
unfoldable pub boot_secret_ok : Crypto → Option String → Option String → Bool
boot_secret_ok crypto none provided = true
boot_secret_ok crypto (some expected) none = false
boot_secret_ok crypto (some expected) (some got) =
    (len expected == len got) && crypto.ct_eq (as_bytes (codes expected)) (as_bytes (codes got))

module _ {Event Injector : Type 0} where
  -- What is checked of a command before the session sees it: the reply, if it is refused
  unfoldable pub boot_gate :
      Crypto → Option String → ControlMessage → AgentSession Event Injector → Option ControlMessage
  unfolding boot_secret_ok
  boot_gate crypto expected (attach_session a) s =
      if not (boot_secret_ok crypto expected a.boot_secret)
      then some (error "auth_failed" "boot secret missing or incorrect" (some a.session_id))
      else none
  boot_gate crypto expected _ s =
      if is_attached expected && not (is_attached s.state.session_id)
      then some (error "auth_failed" "control IPC requires attach with boot_secret first" none)
      else none

  -- One round of `serve_agent_connection`, up to the reply
  unfoldable pub serve_command :
      Crypto
      → Option String
      → World Injector
      → ControlMessage
      → AgentSession Event Injector
      → AgentSession Event Injector × ControlMessage
  unfolding boot_gate
  serve_command crypto expected w msg s = elim (boot_gate crypto expected msg s) [
    | some refusal ↦ (s, refusal)
    | none ↦ handle_control w msg s
  ]
