-- ===== src/Registry/Outcomes.antt =====
-- What the creation of a session answers, and what it leaves behind.
use remotelink.Prelude.{
  ℕ, ◌+◌, ◌≤◌, ◌<◌, ◌≡◌, inl, inr, Bool, true, none, some, ◌∷◌, String, ok, err, String_discrete,
  ℕ_discrete, arith, Option-cases,
}
use remotelink.Map.{lookup, insert}
use remotelink.Map.Laws.{lookup-insert, lookup-remove}
use remotelink.Protocol.{SignalMessage, pending, session_incoming, session_reject, busy, skipped}
use remotelink.Registry.State.{
  Session, SessionRegistry, ConnId, ConnTx, checked_add, saturating_add, u64_max, post,
}
use remotelink.Registry.Close.{reap_expired_locked}
use remotelink.Registry.Lifecycle.{
  CreatePendingSession, install, new_session, create_after_reap, create_pending_session,
}
use remotelink.Registry.Cases.{create_cases, checked_add_lem}
use remotelink.Registry.Valid.{IsValid}
use remotelink.Registry.Valid.Closing.{lookup-reap, reap-IsValid, reap-SameFrame}

module _ {Value : Type 0} (live : ConnTx → Bool) (now : ℕ) (req : CreatePendingSession Value) where
  -- A session is created only where its id is new, its host is not busy and is connected, and the
  -- numbers for the next two messages fit 64 bits.
  pub record Created (host_conn : ConnId) (h g' : SessionRegistry Value) : Type 0 where
    pub fresh : lookup String_discrete req.session_id h.sessions ≡ none
    pub free : lookup String_discrete req.host_public_id h.host_busy ≡ none
    pub published : lookup String_discrete req.host_public_id h.host_by_public_id ≡ some host_conn
    pub fits : req.signal_seq + 2 ≤ u64_max
    pub effect :
        (tx : ConnTx) × (lookup ℕ_discrete host_conn h.conns ≡ some tx)
        × (live tx ≡ true)
        × (g' ≡ record h {
          sessions =
              insert String_discrete req.session_id
                (record {
                  session_id = req.session_id;
                  host_public_id = req.host_public_id;
                  host_device_id = req.host_device_id;
                  host_conn = host_conn;
                  viewer_conn = req.viewer_conn;
                  mode = req.mode;
                  state = pending;
                  next_signal_seq = req.signal_seq + 2;
                  created_at = now;
                  expires_at = now + h.pending_ttl;
                })
                h.sessions;
          host_busy = insert String_discrete req.host_public_id req.session_id h.host_busy;
          sent =
              (
                tx,
                session_incoming req.session_id
                    (req.signal_seq + 1)
                    req.viewer_info
                    req.mode
                    skipped,
              )
              ∷ h.sent;
        })

  -- The tables that a refusal must not change.
  pub record Untouched (h g' : SessionRegistry Value) : Type 0 where
    pub same_session :
        (sid : String)
        → lookup String_discrete sid g'.sessions ≡ lookup String_discrete sid h.sessions
    pub same_lock :
        (pid : String)
        → lookup String_discrete pid g'.host_busy ≡ lookup String_discrete pid h.host_busy
    pub same_sent : g'.sent ≡ h.sent
    pub same_conns : g'.conns ≡ h.conns

  install_ok :
      (host_conn seq next : ℕ) (h g' : SessionRegistry Value)
      → lookup String_discrete req.session_id h.sessions ≡ none
      → lookup String_discrete req.host_public_id h.host_busy ≡ none
      → lookup String_discrete req.host_public_id h.host_by_public_id ≡ some host_conn
      → checked_add req.signal_seq 1 ≡ some seq
      → checked_add seq 1 ≡ some next
      → install live now req host_conn seq next h ≡ (g', ok tt)
      → Created host_conn h g'
  unfolding install post new_session
  install_ok host_conn seq next h g' fresh free published e e' r =
      ground (arith, checked_add_lem req.signal_seq seq e, checked_add_lem seq next e')

  install_err :
      (host_conn seq next : ℕ) (h g' : SessionRegistry Value) (e : SignalMessage Value)
      → lookup String_discrete req.session_id h.sessions ≡ none
      → lookup String_discrete req.host_public_id h.host_busy ≡ none
      → install live now req host_conn seq next h ≡ (g', err e)
      → Untouched h g'
  unfolding install
  install_err host_conn seq next h g' e fresh free r =
      let s = new_session now h.pending_ttl req host_conn next in
      let sessions = insert String_discrete req.session_id s h.sessions in
      let locks = insert String_discrete req.host_public_id req.session_id h.host_busy in
      record {
        same_session = λ sid. ground (
          arith,
          lookup-remove String_discrete req.session_id sid sessions,
          lookup-insert String_discrete req.session_id sid s h.sessions,
        );
        same_lock = λ pid. ground (
          arith,
          lookup-remove String_discrete req.host_public_id pid locks,
          lookup-insert String_discrete req.host_public_id pid req.session_id h.host_busy,
        );
        same_sent = ground arith;
        same_conns = ground arith;
      }

  -- `create_pending_session`, when it is answered `ok`, has, after the reap, created a session that
  -- is pending, of the request's ids, mode and viewer and the host's connection, with the counter two
  -- past the intent's number, and that expires when the pending time to live has passed from now. It
  -- has locked the host for it, and has put `session_incoming` with the number after the intent's on
  -- the host's channel, which is open. It found the session id new, the host free and connected, and
  -- both numbers within 64 bits. Nothing else has changed.
  pub create_ok :
      (g g' : SessionRegistry Value)
      → create_pending_session live now req g ≡ (g', ok tt)
      → (host_conn : ConnId) × Created host_conn (reap_expired_locked live now g) g'
  unfolding create_pending_session
  create_ok g g' =
      let h = reap_expired_locked live now g in
      create_cases live (λ r. r ≡ (g', ok tt) → (host_conn : ConnId) × Created host_conn h g') now
        req h (λ e r. absurd (ground arith))
        (λ conn seq next fresh free published e e' r.
          (conn, install_ok conn seq next h g' fresh free published e e' r))

  -- A call that fails leaves, after the reap, every session, every lock, every connection and what
  -- was sent as they were: what it had written before the host turned out to be gone is taken back.
  pub create_err :
      (g g' : SessionRegistry Value) (e : SignalMessage Value)
      → create_pending_session live now req g ≡ (g', err e)
      → Untouched (reap_expired_locked live now g) g'
  unfolding create_pending_session
  create_err g g' e =
      let h = reap_expired_locked live now g in
      create_cases live (λ r. r ≡ (g', err e) → Untouched h g') now req h
        (λ e' r.
          let same : g' ≡ h = ground arith in
          record {
            same_session = λ sid. rw same;
            same_lock = λ pid. rw same;
            same_sent = rw same;
            same_conns = rw same;
          })
        (λ conn seq next fresh free published _ _ r. install_err conn seq next h g' e fresh free r)

  -- In a valid registry, while a host has a session that is not past its time, every attempt to
  -- create another under a new id is answered with a `busy` reject and does no more than reap.
  pub create_busy :
      (g : SessionRegistry Value) (sid : String) (s : Session)
      → IsValid g
      → lookup String_discrete sid g.sessions ≡ some s
      → s.host_public_id ≡ req.host_public_id
      → now < s.expires_at
      → lookup String_discrete req.session_id g.sessions ≡ none
      → create_pending_session live now req g ≡ (
        reap_expired_locked live now g,
        err (session_reject req.session_id (saturating_add req.signal_seq 1) busy),
      )
  unfolding create_pending_session create_after_reap
  create_busy g sid s v stored same lasts fresh =
      let h = reap_expired_locked live now g in
      let w = reap-IsValid live now g v in
      let kept : lookup String_discrete sid h.sessions ≡ some s =
        ground (arith, stored, lookup-reap live now sid g v) in
      let new : lookup String_discrete req.session_id h.sessions ≡ none =
        ground (arith, fresh, lookup-reap live now req.session_id g v) in
      let locked : lookup String_discrete req.host_public_id h.host_busy ≡ some sid =
        rw same at ((w.each sid s kept).locked) in
      rw (new, create_after_reap, locked)

  -- A session that is past its time cannot keep its host busy: in a valid registry, when every
  -- session of the host is past its time, the host is connected and listens, the id is new and the
  -- numbers fit, `create_pending_session` succeeds.
  pub create_after_expiry :
      (g : SessionRegistry Value) (host_conn : ConnId) (tx : ConnTx)
      → IsValid g
      → lookup String_discrete req.host_public_id g.host_by_public_id ≡ some host_conn
      → lookup ℕ_discrete host_conn g.conns ≡ some tx
      → live tx ≡ true
      → ((sid : String) (s : Session)
          → lookup String_discrete sid g.sessions ≡ some s
          → s.host_public_id ≡ req.host_public_id
          → s.expires_at ≤ now)
      → lookup String_discrete req.session_id g.sessions ≡ none
      → req.signal_seq + 2 ≤ u64_max
      → (create_pending_session live now req g).1 ≡ ok tt
  unfolding create_pending_session create_after_reap install checked_add
  create_after_expiry g host_conn tx v published found heard past fresh fits =
      let h = reap_expired_locked live now g in
      let w = reap-IsValid live now g v in
      let frame = reap-SameFrame live now g in
      let new : lookup String_discrete req.session_id h.sessions ≡ none =
        ground (arith, fresh, lookup-reap live now req.session_id g v) in
      let free : lookup String_discrete req.host_public_id h.host_busy ≡ none =
        elim (Option-cases (lookup String_discrete req.host_public_id h.host_busy)) [
          | inl free ↦ free
          | inr (sid, e) ↦
              let (s, stored, same) = w.owned req.host_public_id sid e in
              let reaped = lookup-reap live now sid g v in
              elim (Option-cases (lookup String_discrete sid g.sessions)) [
                | inl miss ↦ absurd (ground (arith, stored, reaped, miss))
                | inr (s₀, hit) ↦
                    absurd (ground (arith, stored, same, reaped, hit, past sid s₀ hit))
              ]
        ] in
      ground (arith, new, free, frame, published, found, heard)
