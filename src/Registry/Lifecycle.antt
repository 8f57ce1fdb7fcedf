-- ===== src/Registry/Lifecycle.antt =====
-- A session's life: create, accept, reject, end, force (apps/server/src/session.rs, lines 322 to
-- 615, and `CreatePendingSession`). Each call takes the lock, reaps, and then does its work.
use remotelink.Prelude.{
  ℕ, ◌+◌, ◌-◌, Bool, true, false, not, ◌&&◌, Option, none, some, String, Result, ok, err, ltb, ◌==◌,
  if◌then◌else◌, String_discrete, ℕ_discrete,
}
use mathlib.Core.Option
use remotelink.Map.{lookup, insert, remove}
use remotelink.Protocol.{
  SessionMode, SessionState, pending, active, closed, RejectReason, busy, skipped, SignalMessage,
  session_incoming, session_accept, session_reject, session_end, error, plain, session_exists,
  host_not_connected, expected_pending, seq_below_next,
}
use remotelink.Registry.State.{
  Session, SessionRegistry, ConnId, ConnTx, second, notify, post, saturating_add, checked_add,
}
use remotelink.Registry.Close.{is_closed, drop_session, close_session_locked, reap_expired_locked}

-- Of the host's device row the registry reads the id.
pub record CreatePendingSession (Value : Type 0) : Type 0 where
  pub viewer_conn : ConnId
  pub session_id : String
  pub host_public_id : String
  pub host_device_id : ℕ
  pub mode : SessionMode
  pub signal_seq : ℕ
  pub viewer_info : Value

abbrev pub is_pending : SessionState → Bool
is_pending pending = true
is_pending active = false
is_pending closed = false

abbrev pub Reply : Type 0 → Type 0
Reply Value = Result (Unit {0}) (SignalMessage Value)

-- A call's state and answer.
abbrev pub Outcome : Type 0 → Type 0
Outcome Value = SessionRegistry Value × Reply Value

unfoldable pub new_session :
    {Value : Type 0} → ℕ → ℕ → CreatePendingSession Value → ConnId → ℕ → Session
new_session now pending_ttl req host_conn next_signal_seq = record {
  session_id = req.session_id;
  host_public_id = req.host_public_id;
  host_device_id = req.host_device_id;
  host_conn = host_conn;
  viewer_conn = req.viewer_conn;
  mode = req.mode;
  state = pending;
  next_signal_seq = next_signal_seq;
  created_at = now;
  expires_at = now + pending_ttl;
}

module _ {Value : Type 0} (live : ConnTx → Bool) where
  -- The row and the lock are written, the host is told, and both are taken back if it cannot be.
  unfoldable pub install :
      ℕ → CreatePendingSession Value → ConnId → ℕ → ℕ → SessionRegistry Value → Outcome Value
  unfolding drop_session new_session
  install now req host_conn incoming_seq next_signal_seq g =
      let session = new_session now g.pending_ttl req host_conn next_signal_seq in
      let g' : SessionRegistry Value = record g {
        host_busy = insert String_discrete req.host_public_id req.session_id g.host_busy;
        sessions = insert String_discrete req.session_id session g.sessions;
      } in
      let incoming =
        session_incoming req.session_id incoming_seq req.viewer_info req.mode skipped in
      let offline : Outcome Value = (
        drop_session req.session_id session g',
        err (error "host_offline" (plain "host disconnected before session_incoming")),
      ) in
      elim (lookup ℕ_discrete host_conn g.conns) [
        | none ↦ offline
        | some tx ↦
            if live tx then (record g' { sent = post live tx incoming g.sent }, ok tt) else offline
      ]

  unfoldable pub create_after_reap :
      ℕ → CreatePendingSession Value → SessionRegistry Value → Outcome Value
  unfolding install
  create_after_reap now req g = elim (lookup String_discrete req.session_id g.sessions) [
    | some _ ↦ (g, err (error "conflict" (session_exists req.session_id)))
    | none ↦ elim (lookup String_discrete req.host_public_id g.host_busy) [
      | some _ ↦ (g, err (session_reject req.session_id (saturating_add req.signal_seq 1) busy))
      | none ↦ elim (lookup String_discrete req.host_public_id g.host_by_public_id) [
        | none ↦ (g, err (error "host_offline" (host_not_connected req.host_public_id)))
        | some host_conn ↦ elim (checked_add req.signal_seq 1) [
          | none ↦ (g, err (error "bad_request" (plain "signal_seq overflow; start a new session")))
          | some incoming_seq ↦ elim (checked_add incoming_seq 1) [
            | none ↦
                (g, err (error "bad_request" (plain "signal_seq overflow; start a new session")))
            | some next_signal_seq ↦ install now req host_conn incoming_seq next_signal_seq g
          ]
        ]
      ]
    ]
  ]

  unfoldable pub create_pending_session :
      ℕ → CreatePendingSession Value → SessionRegistry Value → Outcome Value
  unfolding create_after_reap
  create_pending_session now req g = create_after_reap now req (reap_expired_locked live now g)

-- What accept and reject demand of the session first. `none` lets the call go on.
unfoldable pub refuse_answer :
    {Value : Type 0} → ConnId → ℕ → Session → Option (SignalMessage Value)
refuse_answer host_conn seq s =
    if not (s.host_conn == host_conn)
    then some (error "unauthorized" (plain "not the host for this session"))
    else if not (is_pending s.state)
    then some (error "invalid_state" (expected_pending s.state))
    else if ltb seq s.next_signal_seq
    then some (error "stale_signal_seq" (seq_below_next seq s.next_signal_seq))
    else none

unfoldable pub activate : ℕ → ℕ → ℕ → Session → Session
activate now active_ttl seq s = record s {
  state = active;
  expires_at = now + active_ttl;
  next_signal_seq = saturating_add seq 1;
}

module _ {Value : Type 0} where
  -- Any call on one session: unknown ids are refused, and a known session goes to `body`.
  unfoldable pub with_session :
      String
      → (Session → SessionRegistry Value → Outcome Value)
      → SessionRegistry Value
      → Outcome Value
  with_session sid body g = elim (lookup String_discrete sid g.sessions) [
    | none ↦ (g, err (error "not_found" (plain "unknown session_id")))
    | some s ↦ body s g
  ]

module _ {Value : Type 0} (live : ConnTx → Bool) where
  unfoldable pub accept_body :
      ℕ → ConnId → String → ℕ → Session → SessionRegistry Value → Outcome Value
  accept_body now host_conn sid seq s g = elim (refuse_answer host_conn seq s) [
    | some e ↦ (g, err e)
    | none ↦ (
      record g {
        sessions = insert String_discrete sid (activate now g.active_ttl seq s) g.sessions;
        sent = notify live g.conns s.viewer_conn (session_accept sid seq) g.sent;
      },
      ok tt,
    )
  ]

  unfoldable pub accept_session : ℕ → ConnId → String → ℕ → SessionRegistry Value → Outcome Value
  unfolding with_session accept_body
  accept_session now host_conn sid seq g =
      with_session sid (accept_body now host_conn sid seq) (reap_expired_locked live now g)

  unfoldable pub reject_body :
      ConnId → String → ℕ → RejectReason → Session → SessionRegistry Value → Outcome Value
  unfolding drop_session
  reject_body host_conn sid seq reason s g = elim (refuse_answer host_conn seq s) [
    | some e ↦ (g, err e)
    | none ↦
        let g' = drop_session sid s g in
        (
          record g' {
            sent = notify live g.conns s.viewer_conn (session_reject sid seq reason) g.sent;
          },
          ok tt,
        )
  ]

  unfoldable pub reject_session :
      ℕ → ConnId → String → ℕ → RejectReason → SessionRegistry Value → Outcome Value
  unfolding with_session reject_body
  reject_session now host_conn sid seq reason g =
      with_session sid (reject_body host_conn sid seq reason) (reap_expired_locked live now g)

  unfoldable pub end_body :
      ConnId → String → ℕ → String → Session → SessionRegistry Value → Outcome Value
  unfolding drop_session
  end_body conn sid seq reason s g =
      if not (s.host_conn == conn) && not (s.viewer_conn == conn)
      then (g, err (error "unauthorized" (plain "not a party to this session")))
      else if is_closed s.state
      then (g, ok tt)
      else if ltb seq s.next_signal_seq
      then (g, err (error "stale_signal_seq" (seq_below_next seq s.next_signal_seq)))
      else let g' = drop_session sid s g in
        let peer : ConnId = if s.host_conn == conn then s.viewer_conn else s.host_conn in
        (record g' { sent = notify live g.conns peer (session_end sid seq reason) g.sent }, ok tt)

  unfoldable pub end_session :
      ℕ → ConnId → String → ℕ → String → SessionRegistry Value → Outcome Value
  unfolding with_session end_body
  end_session now conn sid seq reason g =
      with_session sid (end_body conn sid seq reason) (reap_expired_locked live now g)

  unfoldable pub force_disconnect :
      ℕ → String → String → SessionRegistry Value → SessionRegistry Value × Bool
  force_disconnect now sid reason g =
      let g' = reap_expired_locked live now g in
      elim (lookup String_discrete sid g'.sessions) [
        | none ↦ (g', false)
        | some s ↦
            if is_closed s.state
            then (record g' { sessions = remove String_discrete sid g'.sessions }, false)
            else (close_session_locked live sid reason g', true)
      ]

  unfoldable pub busy_session_for_host :
      ℕ → String → SessionRegistry Value → SessionRegistry Value × Option String
  busy_session_for_host now host_public_id g =
      let g' = reap_expired_locked live now g in
      (g', lookup String_discrete host_public_id g'.host_busy)

  unfoldable pub session_state :
      ℕ → String → SessionRegistry Value → SessionRegistry Value × Option SessionState
  session_state now sid g =
      let g' = reap_expired_locked live now g in
      (g', Option.map (λ s. s.state) (lookup String_discrete sid g'.sessions))

  -- The clock is read twice.
  unfoldable pub force_expire_session :
      ℕ → ℕ → String → SessionRegistry Value → SessionRegistry Value × Bool
  force_expire_session now now' sid g = elim (lookup String_discrete sid g.sessions) [
    | none ↦ (g, false)
    | some s ↦
        let s' : Session = record s { expires_at = now - second } in
        (
          reap_expired_locked live now'
              (record g { sessions = insert String_discrete sid s' g.sessions }),
          true,
        )
  ]

unfoldable pub next_signal_seq : {Value : Type 0} → String → SessionRegistry Value → Option ℕ
next_signal_seq sid g = Option.map (λ s. s.next_signal_seq) (lookup String_discrete sid g.sessions)
