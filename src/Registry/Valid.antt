-- ===== src/Registry/Valid.antt =====
-- The registry's invariant over its three linked tables: sessions, busy locks and published hosts.
use remotelink.Prelude.{ℕ, ◌≤◌, ◌≡◌, some, false, String, String_discrete}
use remotelink.Map.{Map, lookup, Distinct}
use remotelink.Registry.State.{Session, SessionRegistry, ConnId, u64_max}
use remotelink.Registry.Close.{is_closed}
pub mod Tables
pub mod Closing

abbrev pub Sessions : Type 0
Sessions = Map String Session

abbrev pub Locks : Type 0
Locks = Map String String

abbrev pub Hosts : Type 0
Hosts = Map String ConnId

-- A stored session: it stands under its own id, holds its host's lock, is not terminal, has the
-- host's published connection, and its counter fits 64 bits.
pub record SessionOk (locks : Locks) (hosts : Hosts) (sid : String) (s : Session) : Type 0 where
  pub keyed : s.session_id ≡ sid
  pub locked : lookup String_discrete s.host_public_id locks ≡ some sid
  pub not_closed : is_closed s.state ≡ false
  pub published : lookup String_discrete s.host_public_id hosts ≡ some s.host_conn
  pub bounded : s.next_signal_seq ≤ u64_max

-- Every session is in order, and every lock is held by a session of its host.
pub record Consistent (sessions : Sessions) (locks : Locks) (hosts : Hosts) : Type 0 where
  pub sessions_distinct : Distinct String_discrete sessions
  pub hosts_distinct : Distinct String_discrete hosts
  pub each :
      (sid : String) (s : Session)
      → lookup String_discrete sid sessions ≡ some s
      → SessionOk locks hosts sid s
  pub owned :
      (pid sid : String)
      → lookup String_discrete pid locks ≡ some sid
      → (s : Session) × (lookup String_discrete sid sessions ≡ some s) × (s.host_public_id ≡ pid)

abbrev pub IsValid : {Value : Type 0} → SessionRegistry Value → Type 0
IsValid g = Consistent g.sessions g.host_busy g.host_by_public_id
