-- ===== src/Registry/SessionSteps.antt =====
-- The calls on a session that exists keep the registry valid.
use remotelink.Registry.Steps.{
  accept_body-IsValid, reject_body-IsValid, end_body-IsValid, relay_body-IsValid,
}
use remotelink.Prelude.{
  ℕ, ◌≡◌, Bool, some, inl, inr, String, String_discrete, arith, Option-cases, ◌-◌,
}
use remotelink.Map.{lookup, insert}
use remotelink.Protocol.{SignalMessage, RejectReason}
use remotelink.Registry.State.{Session, SessionRegistry, ConnId, ConnTx, second}
use remotelink.Registry.Close.{reap_expired_locked}
use remotelink.Registry.Lifecycle.{
  Outcome, with_session, accept_body, accept_session, reject_body, reject_session, end_body,
  end_session, force_disconnect, force_expire_session,
}
use remotelink.Registry.Relay.{relay_media_signal, relay_body, relayed}
use remotelink.Registry.Cases.{with_session_cases}
use remotelink.Registry.Valid.{SessionOk, IsValid}
use remotelink.Registry.Valid.Tables.{update-Consistent}
use remotelink.Registry.Valid.Closing.{reap-IsValid, close-IsValid}

module _ {Value : Type 0} (live : ConnTx → Bool) where
  -- Reap, look the session up, and do the body's work.
  session_call-IsValid :
      (now : ℕ) (sid : String) (body : Session → SessionRegistry Value → Outcome Value)
      (g : SessionRegistry Value)
      → IsValid g
      → ((s : Session) (h : SessionRegistry Value)
          → IsValid h
          → lookup String_discrete sid h.sessions ≡ some s
          → IsValid (body s h).0)
      → IsValid (with_session sid body (reap_expired_locked live now g)).0
  session_call-IsValid now sid body g v keep =
      let w = reap-IsValid live now g v in
      with_session_cases (λ r. IsValid r.0) sid body (reap_expired_locked live now g) (λ _. w)
        (λ s hit. keep s (reap_expired_locked live now g) w hit)

  pub accept-IsValid :
      (now : ℕ) (from : ConnId) (sid : String) (seq : ℕ) (g : SessionRegistry Value)
      → IsValid g
      → IsValid (accept_session live now from sid seq g).0
  unfolding accept_session
  accept-IsValid now from sid seq g v =
      session_call-IsValid now sid (accept_body live now from sid seq) g v
        (λ s h w hit. accept_body-IsValid live sid s h w hit now from seq)

  pub reject-IsValid :
      (now : ℕ) (from : ConnId) (sid : String) (seq : ℕ) (reason : RejectReason)
      (g : SessionRegistry Value)
      → IsValid g
      → IsValid (reject_session live now from sid seq reason g).0
  unfolding reject_session
  reject-IsValid now from sid seq reason g v =
      session_call-IsValid now sid (reject_body live from sid seq reason) g v
        (λ s h w hit. reject_body-IsValid live sid s h w hit from seq reason)

  pub end-IsValid :
      (now : ℕ) (from : ConnId) (sid : String) (seq : ℕ) (reason : String)
      (g : SessionRegistry Value)
      → IsValid g
      → IsValid (end_session live now from sid seq reason g).0
  unfolding end_session
  end-IsValid now from sid seq reason g v =
      session_call-IsValid now sid (end_body live from sid seq reason) g v
        (λ s h w hit. end_body-IsValid live sid s h w hit from seq reason)

  pub relay-IsValid :
      (now : ℕ) (from : ConnId) (msg : SignalMessage Value) (g : SessionRegistry Value)
      → IsValid g
      → IsValid (relay_media_signal live now from msg g).0
  unfolding relay_media_signal
  relay-IsValid now from msg g v = elim (Option-cases (relayed msg)) [
    | inl e ↦ rw (e, relay_media_signal) v
    | inr ((sid, seq), e) ↦
        rw (e, relay_media_signal)
          (session_call-IsValid now sid (relay_body live from msg sid seq) g v
            (λ s h w hit. relay_body-IsValid live from msg sid seq s h w hit))
  ]

  pub force_disconnect-IsValid :
      (now : ℕ) (sid reason : String) (g : SessionRegistry Value)
      → IsValid g
      → IsValid (force_disconnect live now sid reason g).0
  unfolding force_disconnect
  force_disconnect-IsValid now sid reason g v =
      let h = reap_expired_locked live now g in
      let w = reap-IsValid live now g v in
      elim (Option-cases (lookup String_discrete sid h.sessions)) [
        | inl miss ↦ rw (miss, force_disconnect) w
        | inr (s, hit) ↦
            rw (hit, force_disconnect, (w.each sid s hit).not_closed)
              (close-IsValid live sid reason h w)
      ]

  pub force_expire-IsValid :
      (now now' : ℕ) (sid : String) (g : SessionRegistry Value)
      → IsValid g
      → IsValid (force_expire_session live now now' sid g).0
  unfolding force_expire_session
  force_expire-IsValid now now' sid g v =
      elim (Option-cases (lookup String_discrete sid g.sessions)) [
        | inl miss ↦ rw (miss, force_expire_session) v
        | inr (s, hit) ↦
            let s' : Session = record s { expires_at = now - second } in
            let o : SessionOk g.host_busy g.host_by_public_id sid s' =
              ground (arith, v.each sid s hit) in
            rw (hit, force_expire_session)
              (reap-IsValid live now'
                (record g { sessions = insert String_discrete sid s' g.sessions })
                (update-Consistent g.sessions g.host_busy g.host_by_public_id v sid s s' hit o))
      ]
