-- ===== src/Registry/State.antt =====
-- The registry's state (apps/server/src/session.rs, lines 26 to 135), and its outbound channels.
-- Times are nanoseconds since the epoch, and `now` is an argument of every call. A tokio channel
-- is a number with what it has received; `live` says which receivers still exist during a call.
use remotelink.Prelude.{
  ℕ, ◌+◌, ◌*◌, ◌-◌, ◌^◌, Bool, Option, none, some, List, [], ◌∷◌, String, ltb, if◌then◌else◌,
  ℕ_discrete,
}
use remotelink.Map.{Map, lookup}
use remotelink.Protocol.{Role, SessionMode, SessionState, SignalMessage}

abbrev pub ConnId : Type 0
ConnId = ℕ

abbrev pub ConnTx : Type 0
ConnTx = ℕ

abbrev pub second : ℕ
second = 1_000_000_000

abbrev pub pending_session_ttl : ℕ
pending_session_ttl = 2 * 60 * second

abbrev pub active_session_ttl : ℕ
active_session_ttl = 8 * 3600 * second

abbrev pub viewer_token_ttl : ℕ
viewer_token_ttl = 15 * 60 * second

pub record Session : Type 0 where
  pub session_id : String
  pub host_public_id : String
  pub host_device_id : ℕ
  pub host_conn : ConnId
  pub viewer_conn : ConnId
  pub mode : SessionMode
  pub state : SessionState
  pub next_signal_seq : ℕ
  pub created_at : ℕ
  pub expires_at : ℕ

pub record PeerIdentity : Type 0 where
  pub role : Role
  pub device_public_id : Option String
  pub device_id : Option ℕ
  pub anonymous : Bool

-- What each channel has received, the newest first.
abbrev pub Log : Type 0 → Type 0
Log Value = List (ConnTx × SignalMessage Value)

-- `SessionRegistry` with its locked `RegistryInner`, the static counter of connection ids, and
-- the channels. A viewer token's record is its expiry.
pub record SessionRegistry (Value : Type 0) : Type 0 where
  pub conns : Map ConnId ConnTx
  pub host_by_public_id : Map String ConnId
  pub peers : Map ConnId PeerIdentity
  pub sessions : Map String Session
  pub host_busy : Map String String
  pub viewer_tokens : Map String ℕ
  pub pending_ttl : ℕ
  pub active_ttl : ℕ
  pub next_conn_id : ConnId
  pub sent : Log Value

-- u64 arithmetic that stops at the maximum.
abbrev pub u64_max : ℕ
u64_max = 2 ^ 64 - 1

unfoldable pub saturating_add : ℕ → ℕ → ℕ
saturating_add a b = if ltb u64_max (a + b) then u64_max else a + b

unfoldable pub checked_add : ℕ → ℕ → Option ℕ
checked_add a b = if ltb u64_max (a + b) then none else some (a + b)

module _ {Value : Type 0} where
  unfoldable pub with_ttls : ℕ → ℕ → SessionRegistry Value
  with_ttls pending_ttl active_ttl = record {
    conns = [];
    host_by_public_id = [];
    peers = [];
    sessions = [];
    host_busy = [];
    viewer_tokens = [];
    pending_ttl = pending_ttl;
    active_ttl = active_ttl;
    next_conn_id = 1;
    sent = [];
  }

  unfoldable pub new : SessionRegistry Value
  unfolding with_ttls
  new = with_ttls pending_session_ttl active_session_ttl

  -- `tx.send(msg)`: the message is dropped when the receiver is gone.
  unfoldable pub post : (ConnTx → Bool) → ConnTx → SignalMessage Value → Log Value → Log Value
  post live tx msg sent = if live tx then (tx, msg) ∷ sent else sent

  -- `if let Some(tx) = g.conns.get(&conn) { let _ = tx.send(msg); }`
  unfoldable pub notify :
      (ConnTx → Bool) → Map ConnId ConnTx → ConnId → SignalMessage Value → Log Value → Log Value
  unfolding post
  notify live conns conn msg sent = elim (lookup ℕ_discrete conn conns) [
    | none ↦ sent
    | some tx ↦ post live tx msg sent
  ]
