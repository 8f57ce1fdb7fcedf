-- ===== src/Registry/Relay.antt =====
-- The relay of media signals inside an active session (apps/server/src/session.rs, lines 617 to
-- 757).
use remotelink.Prelude.{
  ℕ, Bool, true, false, not, ◌&&◌, Option, none, some, String, ok, err, ltb, ◌==◌, if◌then◌else◌,
  String_discrete, ℕ_discrete,
}
use remotelink.Map.{lookup, insert}
use remotelink.Protocol.{
  SessionState, pending, active, closed, SignalMessage, auth_challenge, auth_response,
  session_offer, session_answer, ice_candidate, media_restart, renegotiate, stats, error, plain,
  expected_active, seq_below_next, unsupported_type, session_id,
}
use remotelink.Registry.State.{Session, SessionRegistry, ConnId, ConnTx, post, saturating_add}
use remotelink.Registry.Close.{reap_expired_locked}
use remotelink.Registry.Lifecycle.{Outcome, with_session}

abbrev pub is_active : SessionState → Bool
is_active pending = false
is_active active = true
is_active closed = false

module _ {Value : Type 0} where
  -- The messages that the relay takes, with their session and number.
  unfoldable pub relayed : SignalMessage Value → Option (String × ℕ)
  relayed (session_offer sid seq _ _) = some (sid, seq)
  relayed (session_answer sid seq _) = some (sid, seq)
  relayed (ice_candidate sid seq _) = some (sid, seq)
  relayed (media_restart sid seq) = some (sid, seq)
  relayed (renegotiate sid seq) = some (sid, seq)
  relayed (auth_challenge sid seq _) = some (sid, seq)
  relayed (auth_response sid seq _) = some (sid, seq)
  relayed (stats sid seq _) = some (sid, seq)
  relayed _ = none

  unfoldable pub is_ice : SignalMessage Value → Bool
  is_ice (ice_candidate _ _ _) = true
  is_ice _ = false

  -- Only the host offers, and only the viewer answers.
  unfoldable pub wrong_role : Bool → SignalMessage Value → Option (SignalMessage Value)
  wrong_role false (session_offer _ _ _ _) =
      some (error "unauthorized" (plain "only the host may send session_offer"))
  wrong_role true (session_answer _ _ _) =
      some (error "unauthorized" (plain "only the viewer may send session_answer"))
  wrong_role _ _ = none

module _ {Value : Type 0} (live : ConnTx → Bool) where
  -- `next_signal_seq` has moved on before the peer's channel is looked up.
  unfoldable pub forward :
      String → ℕ → ConnId → SignalMessage Value → Session → SessionRegistry Value → Outcome Value
  forward sid seq peer msg s g =
      let s' : Session = record s { next_signal_seq = saturating_add seq 1 } in
      let g' : SessionRegistry Value = record g {
        sessions = insert String_discrete sid s' g.sessions;
      } in
      elim (lookup ℕ_discrete peer g.conns) [
        | none ↦ (
          g',
          err (error "peer_offline" (plain "peer not connected; could not relay media signal")),
        )
        | some tx ↦ if live tx then (record g' { sent = post live tx msg g.sent }, ok tt) else (
          g',
          err (error "peer_offline" (plain "peer disconnected; could not relay media signal")),
        )
      ]

  unfoldable pub relay_body :
      ConnId → SignalMessage Value → String → ℕ → Session → SessionRegistry Value → Outcome Value
  unfolding forward
  relay_body from msg sid seq s g =
      let is_host = s.host_conn == from in
      let peer : ConnId = if is_host then s.viewer_conn else s.host_conn in
      if not is_host && not (s.viewer_conn == from)
      then (g, err (error "unauthorized" (plain "not a party to this session")))
      else if not (is_active s.state)
      then (g, err (error "invalid_state" (expected_active s.state)))
      else if ltb seq s.next_signal_seq
      then if is_ice msg
        then (g, ok tt)
        else (g, err (error "stale_signal_seq" (seq_below_next seq s.next_signal_seq)))
      else elim (wrong_role is_host msg) [
        | some e ↦ (g, err e)
        | none ↦ forward sid seq peer msg s g
      ]

  unfoldable pub relay_media_signal :
      ℕ → ConnId → SignalMessage Value → SessionRegistry Value → Outcome Value
  unfolding with_session relay_body
  relay_media_signal now from msg g = elim (relayed msg) [
    | none ↦ (g, err (error "protocol_error" (unsupported_type (session_id msg))))
    | some (sid, seq) ↦
        with_session sid (relay_body from msg sid seq) (reap_expired_locked live now g)
  ]
