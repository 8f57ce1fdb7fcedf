-- ===== src/Viewer/Connection.antt =====
-- The viewer's connection state machine (packages/viewer-core/src/state.rs) and the transport's
-- states that drive it (packages/net/src/types.rs).
pub mod Phases
use remotelink.Prelude.{Bool, true, false, ◌||◌, Option, none, some, if◌then◌else◌, String}

pub data ConnectionState : Type 0 where
  not_started : ConnectionState
  connecting : ConnectionState
  connected : ConnectionState
  disconnected : ConnectionState
  failed : ConnectionState
  closed : ConnectionState

pub data ViewerPhase : Type 0 where
  idle : ViewerPhase
  connecting : ViewerPhase
  answering : ViewerPhase
  connected : ViewerPhase
  streaming : ViewerPhase
  failed : String → ViewerPhase
  disconnected : ViewerPhase
  closed : ViewerPhase

unfoldable pub is_active : ViewerPhase → Bool
is_active ViewerPhase.connecting = true
is_active ViewerPhase.answering = true
is_active ViewerPhase.connected = true
is_active ViewerPhase.streaming = true
is_active _ = false

unfoldable pub can_play_media : ViewerPhase → Bool
can_play_media ViewerPhase.connected = true
can_play_media ViewerPhase.streaming = true
can_play_media _ = false

unfoldable pub can_send_input : ViewerPhase → Bool
can_send_input ViewerPhase.connected = true
can_send_input ViewerPhase.streaming = true
can_send_input _ = false

pub record ConnectionMachine : Type 0 where
  pub phase : ViewerPhase
  pub transport : ConnectionState
  pub host_public_id : Option String
  pub last_error : Option String

unfoldable pub new : ConnectionMachine
new = record {
  phase = ViewerPhase.idle;
  transport = ConnectionState.not_started;
  host_public_id = none;
  last_error = none;
}

unfoldable pub begin_connect : String → ConnectionMachine → ConnectionMachine
begin_connect host m = record {
  phase = ViewerPhase.connecting;
  transport = ConnectionState.not_started;
  host_public_id = some host;
  last_error = none;
}

-- The phase after `begin_answer`
unfoldable pub answered : ViewerPhase → ViewerPhase
answered ViewerPhase.connecting = ViewerPhase.answering
answered ViewerPhase.answering = ViewerPhase.answering
answered p = p

unfoldable pub begin_answer : ConnectionMachine → ConnectionMachine
unfolding answered
begin_answer m = record m { phase = answered m.phase }

unfoldable pub fail : String → ConnectionMachine → ConnectionMachine
fail reason m = record m { last_error = some reason; phase = ViewerPhase.failed reason }

-- The phase once the transport is connected
unfoldable pub linked : ViewerPhase → ViewerPhase
linked ViewerPhase.connecting = ViewerPhase.connected
linked ViewerPhase.answering = ViewerPhase.connected
linked ViewerPhase.connected = ViewerPhase.connected
linked p = p

-- The phase once the transport is lost
unfoldable pub lost : ViewerPhase → ViewerPhase
unfolding is_active
lost p = if is_active p then ViewerPhase.disconnected else p

unfoldable pub on_transport_state : ConnectionState → ConnectionMachine → ConnectionMachine
unfolding linked lost fail
on_transport_state state m =
    let m = record m { transport = state } in
    elim state [
      | not_started ↦ m
      | connecting ↦ m
      | connected ↦ record m { phase = linked m.phase }
      | disconnected ↦ record m { phase = lost m.phase }
      | failed ↦ fail "transport failed" m
      | closed ↦ record m { phase = ViewerPhase.closed }
    ]

-- The phase once media has arrived
unfoldable pub played : ViewerPhase → ViewerPhase
played ViewerPhase.connected = ViewerPhase.streaming
played ViewerPhase.streaming = ViewerPhase.streaming
played p = p

unfoldable pub on_media_received : ConnectionMachine → ConnectionMachine
unfolding played
on_media_received m = record m { phase = played m.phase }

unfoldable pub reset : ConnectionMachine → ConnectionMachine
unfolding new
reset m = new

unfoldable pub close : ConnectionMachine → ConnectionMachine
close m = record m { phase = ViewerPhase.closed; transport = ConnectionState.closed }
