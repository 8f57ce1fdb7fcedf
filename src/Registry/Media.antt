-- ===== src/Registry/Media.antt =====
-- What the media relay guarantees: who may send, and where the message goes.
use remotelink.Prelude.{
  ℕ, ◌≤◌, ◌<◌, ◌≡◌, ◌≢◌, ◌⊎◌, refl, inl, inr, Bool, true, none, some, ◌∷◌, String, ok, err, ◌==◌,
  String_discrete, ℕ_discrete, arith, Option-cases, if◌then◌else◌,
}
use remotelink.Map.{lookup, insert}
use remotelink.Protocol.{
  SignalMessage, session_offer, session_answer, ice_candidate, media_restart, renegotiate,
  auth_challenge, auth_response, stats, SessionState, pending, active, closed,
}
use remotelink.Registry.State.{Session, SessionRegistry, ConnId, ConnTx, saturating_add, post}
use remotelink.Registry.Close.{reap_expired_locked}
use remotelink.Registry.Relay.{
  relay_media_signal, relay_body, relayed, is_ice, wrong_role, is_active,
}

-- The other party of the session.
abbrev pub peer_of : ConnId → Session → ConnId
peer_of from s = if s.host_conn == from then s.viewer_conn else s.host_conn

-- The offer is the host's to send, and the answer the viewer's. A connection that is both parties
-- counts as the host.
unfoldable pub HasRole : {Value : Type 0} → ConnId → Session → SignalMessage Value → Type 0
HasRole from s (session_offer _ _ _ _) = s.host_conn ≡ from
HasRole from s (session_answer _ _ _) = (s.viewer_conn ≡ from) × (s.host_conn ≢ from)
HasRole from s _ = Unit {0}

-- The message is of the kinds that travel between the parties, and is of that session and number.
unfoldable pub IsMedia : {Value : Type 0} → String → ℕ → SignalMessage Value → Type 0
IsMedia sid seq (session_offer sid' seq' _ _) = (sid' ≡ sid) × (seq' ≡ seq)
IsMedia sid seq (session_answer sid' seq' _) = (sid' ≡ sid) × (seq' ≡ seq)
IsMedia sid seq (ice_candidate sid' seq' _) = (sid' ≡ sid) × (seq' ≡ seq)
IsMedia sid seq (media_restart sid' seq') = (sid' ≡ sid) × (seq' ≡ seq)
IsMedia sid seq (renegotiate sid' seq') = (sid' ≡ sid) × (seq' ≡ seq)
IsMedia sid seq (auth_challenge sid' seq' _) = (sid' ≡ sid) × (seq' ≡ seq)
IsMedia sid seq (auth_response sid' seq' _) = (sid' ≡ sid) × (seq' ≡ seq)
IsMedia sid seq (stats sid' seq' _) = (sid' ≡ sid) × (seq' ≡ seq)
IsMedia sid seq _ = ⊥

-- The message is an ICE candidate.
unfoldable pub IsCandidate : {Value : Type 0} → SignalMessage Value → Type 0
IsCandidate (ice_candidate _ _ _) = Unit {0}
IsCandidate _ = ⊥

-- The relay of one message between two states of the registry.
pub record Delivered {Value : Type 0} (live : ConnTx → Bool) (from : ConnId)
    (msg : SignalMessage Value) (sid : String) (seq : ℕ) (s : Session)
    (g g' : SessionRegistry Value) : Type 0 where
  pub is_party : (s.host_conn ≡ from) ⊎ (s.viewer_conn ≡ from)
  pub was_active : s.state ≡ active
  pub in_order : s.next_signal_seq ≤ seq
  pub has_role : HasRole from s msg
  pub effect :
      (tx : ConnTx) × (lookup ℕ_discrete (peer_of from s) g.conns ≡ some tx)
      × (live tx ≡ true)
      × (g' ≡ record g {
        sessions =
            insert String_discrete sid
              (record s { next_signal_seq = saturating_add seq 1 })
              g.sessions;
        sent = (tx, msg) ∷ g.sent;
      })

is_active_lem : (state : SessionState) → is_active state ≡ true → state ≡ active
is_active_lem pending e = ground arith
is_active_lem active e = refl
is_active_lem closed e = ground arith

module _ {Value : Type 0} where
  relayed-IsMedia :
      (msg : SignalMessage Value) (sid : String) (seq : ℕ)
      → relayed msg ≡ some (sid, seq)
      → IsMedia sid seq msg
  unfolding relayed IsMedia
  relayed-IsMedia (session_offer _ _ _ _) sid seq e = ground (arith, e)
  relayed-IsMedia (session_answer _ _ _) sid seq e = ground (arith, e)
  relayed-IsMedia (ice_candidate _ _ _) sid seq e = ground (arith, e)
  relayed-IsMedia (media_restart _ _) sid seq e = ground (arith, e)
  relayed-IsMedia (renegotiate _ _) sid seq e = ground (arith, e)
  relayed-IsMedia (auth_challenge _ _ _) sid seq e = ground (arith, e)
  relayed-IsMedia (auth_response _ _ _) sid seq e = ground (arith, e)
  relayed-IsMedia (stats _ _ _) sid seq e = ground (arith, e)
  relayed-IsMedia _ sid seq e = absurd (ground (arith, e))

  is_ice-IsCandidate : (msg : SignalMessage Value) → is_ice msg ≡ true → IsCandidate msg
  unfolding is_ice IsCandidate
  is_ice-IsCandidate (ice_candidate _ _ _) e = tt
  is_ice-IsCandidate _ e = absurd (ground (arith, e))

  pub IsCandidate-is_ice : (msg : SignalMessage Value) → IsCandidate msg → is_ice msg ≡ true
  unfolding is_ice IsCandidate
  IsCandidate-is_ice (ice_candidate _ _ _) c = refl
  IsCandidate-is_ice _ c = absurd c

  wrong_role-HasRole :
      (from : ConnId) (s : Session) (msg : SignalMessage Value)
      → (s.host_conn ≡ from) ⊎ (s.viewer_conn ≡ from)
      → wrong_role (s.host_conn == from) msg ≡ none
      → HasRole from s msg
  unfolding wrong_role HasRole
  wrong_role-HasRole from s (session_offer _ _ _ _) p e = ground (arith, p, e)
  wrong_role-HasRole from s (session_answer _ _ _) p e =
      (ground (arith, p, e), λ q. ground (arith, q, e))
  wrong_role-HasRole from s _ p e = tt

  -- What has its role is not refused for it.
  pub HasRole-wrong_role :
      (from : ConnId) (s : Session) (msg : SignalMessage Value)
      → HasRole from s msg
      → wrong_role (s.host_conn == from) msg ≡ none
  unfolding wrong_role HasRole
  HasRole-wrong_role from s (session_offer _ _ _ _) r = ground (arith, r)
  HasRole-wrong_role from s (session_answer _ _ _) r = ground (arith, r)
  HasRole-wrong_role from s _ r = ground arith

module _ {Value : Type 0} (live : ConnTx → Bool) where
  pub relay_body_ok :
      (from : ConnId) (msg : SignalMessage Value) (sid : String) (seq : ℕ) (s : Session)
      (g g' : SessionRegistry Value)
      → relay_body live from msg sid seq s g ≡ (g', ok tt)
      → Delivered live from msg sid seq s g g'
        ⊎ (IsCandidate msg × (seq < s.next_signal_seq) × (g' ≡ g))
  unfolding relay_body post
  relay_body_ok from msg sid seq s g g' e =
      ground (arith, is_ice-IsCandidate msg, wrong_role-HasRole from s msg, is_active_lem s.state)

  relay_body_err :
      (from : ConnId) (msg : SignalMessage Value) (sid : String) (seq : ℕ) (s : Session)
      (g g' : SessionRegistry Value) (e : SignalMessage Value)
      → relay_body live from msg sid seq s g ≡ (g', err e)
      → (g' ≡ g)
        ⊎ ((s.next_signal_seq ≤ seq)
            × (g' ≡ record g {
              sessions =
                  insert String_discrete sid
                    (record s { next_signal_seq = saturating_add seq 1 })
                    g.sessions;
            }))
  unfolding relay_body
  relay_body_err from msg sid seq s g g' e r = ground arith

  -- A call that is answered `ok` was given a message of the kinds that travel between the parties,
  -- of a session that is there after a reap of what had expired. Either the session was active, the
  -- sender one of its parties, the host for an offer and the viewer for an answer, and the message's
  -- number not below the counter; then the message went unchanged on the other party's channel and
  -- nowhere else, and the session's counter moved to one past its number (or stopped at the largest
  -- of 64 bits). Or an ICE candidate whose number had passed was dropped, and nothing was done.
  pub relay_ok :
      (now : ℕ) (from : ConnId) (msg : SignalMessage Value) (g g' : SessionRegistry Value)
      → relay_media_signal live now from msg g ≡ (g', ok tt)
      → let h = reap_expired_locked live now g in
        (sid : String) × (seq : ℕ) × (s : Session) × IsMedia sid seq msg
        × (lookup String_discrete sid h.sessions ≡ some s)
        × (Delivered live from msg sid seq s h g'
            ⊎ (IsCandidate msg × (seq < s.next_signal_seq) × (g' ≡ h)))
  unfolding relay_media_signal
  relay_ok now from msg g g' e = elim (Option-cases (relayed msg)) [
    | inl none_such ↦ ground (arith, none_such)
    | inr ((sid, seq), takes) ↦
        let h = reap_expired_locked live now g in
        elim (Option-cases (lookup String_discrete sid h.sessions)) [
          | inl miss ↦ ground (arith, takes, miss)
          | inr (s, hit) ↦ (
            sid,
            seq,
            s,
            relayed-IsMedia msg sid seq takes,
            hit,
            relay_body_ok from msg sid seq s h g' (ground (arith, takes, hit)),
          )
        ]
  ]

  -- A refused message reaches nobody. But for the counter, which has already moved when the peer
  -- turns out to be offline, a refusal leaves the registry as the reap left it.
  pub relay_err :
      (now : ℕ) (from : ConnId) (msg : SignalMessage Value) (g g' : SessionRegistry Value)
      (e : SignalMessage Value)
      → relay_media_signal live now from msg g ≡ (g', err e)
      → let h = reap_expired_locked live now g in
        (g' ≡ g)
        ⊎ (g' ≡ h)
        ⊎ ((sid : String) × (seq : ℕ) × (s : Session) × (relayed msg ≡ some (sid, seq))
            × (lookup String_discrete sid h.sessions ≡ some s)
            × (s.next_signal_seq ≤ seq)
            × (g' ≡ record h {
              sessions =
                  insert String_discrete sid
                    (record s { next_signal_seq = saturating_add seq 1 })
                    h.sessions;
            }))
  unfolding relay_media_signal
  relay_err now from msg g g' e r = elim (Option-cases (relayed msg)) [
    | inl none_such ↦ inl (ground (arith, none_such))
    | inr ((sid, seq), takes) ↦
        let h = reap_expired_locked live now g in
        elim (Option-cases (lookup String_discrete sid h.sessions)) [
          | inl miss ↦ inr (inl (ground (arith, takes, miss)))
          | inr (s, hit) ↦
              elim (relay_body_err from msg sid seq s h g' e (ground (arith, takes, hit))) [
                | inl same ↦ inr (inl same)
                | inr (in_order, moved) ↦ inr (inr (sid, seq, s, takes, hit, in_order, moved))
              ]
        ]
  ]
