-- ===== src/Registry/Close.antt =====
-- Closing and reaping (apps/server/src/session.rs, lines 274 to 320). Both run under the lock,
-- inside the other calls.
use remotelink.Prelude.{
  ℕ, Bool, true, false, not, ◌&&◌, none, some, List, [], ◌∷◌, String, leb, if◌then◌else◌,
  String_discrete, length,
}
use remotelink.Map.{lookup, remove, keys_where}
use remotelink.Protocol.{SessionState, pending, active, closed, session_end}
use remotelink.Registry.State.{Session, SessionRegistry, ConnTx, notify}

abbrev pub is_closed : SessionState → Bool
is_closed pending = false
is_closed active = false
is_closed closed = true

-- The filter of `reap_expired_locked`.
unfoldable pub is_expired : ℕ → Session → Bool
is_expired now s = not (is_closed s.state) && leb s.expires_at now

module _ {Value : Type 0} where
  -- The session's row and the host's busy lock go together.
  unfoldable pub drop_session : String → Session → SessionRegistry Value → SessionRegistry Value
  drop_session sid s g = record g {
    sessions = remove String_discrete sid g.sessions;
    host_busy = remove String_discrete s.host_public_id g.host_busy;
  }

module _ {Value : Type 0} (live : ConnTx → Bool) where
  -- `session_end` to the host and then to the viewer.
  unfoldable pub announce_end :
      String → String → Session → SessionRegistry Value → SessionRegistry Value
  announce_end sid reason s g =
      let msg = session_end sid s.next_signal_seq reason in
      record g {
        sent = notify live g.conns s.viewer_conn msg (notify live g.conns s.host_conn msg g.sent);
      }

  unfoldable pub close_session_locked :
      String → String → SessionRegistry Value → SessionRegistry Value
  unfolding drop_session announce_end
  close_session_locked sid reason g = elim (lookup String_discrete sid g.sessions) [
    | none ↦ g
    | some s ↦
        if is_closed s.state
        then drop_session sid s g
        else announce_end sid reason s (drop_session sid s g)
  ]

  -- `for sid in ids { close_session_locked(g, &sid, reason) }`
  unfoldable pub close_each : List String → String → SessionRegistry Value → SessionRegistry Value
  close_each [] reason g = g
  close_each (sid ∷ sids) reason g = close_each sids reason (close_session_locked sid reason g)

  unfoldable pub reap_expired_locked : ℕ → SessionRegistry Value → SessionRegistry Value
  reap_expired_locked now g = close_each (keys_where (is_expired now) g.sessions) "session_ttl" g

  -- The call returns how many were reaped.
  unfoldable pub reap_expired : ℕ → SessionRegistry Value → SessionRegistry Value × ℕ
  reap_expired now g = (reap_expired_locked now g, length (keys_where (is_expired now) g.sessions))
