-- ===== src/Registry/Replay.antt =====
-- What the sequence numbers of relayed messages exclude.
use remotelink.Registry.Media.{
  relay_body_ok, peer_of, Delivered, IsCandidate-is_ice, HasRole-wrong_role,
}
use remotelink.Prelude.{
  ℕ, ◌+◌, ◌≤◌, ◌<◌, ◌≡◌, ◌⊎◌, refl, inl, inr, Bool, true, false, none, some, String, ok, subst,
  ◌==◌, String_discrete, ℕ_discrete, arith, Option-cases,
}
use remotelink.Map.{lookup}
use remotelink.Map.Laws.{lookup-insert_self}
use remotelink.Protocol.{SignalMessage}
use remotelink.Registry.State.{Session, SessionRegistry, ConnId, ConnTx, saturating_add, u64_max}
use remotelink.Registry.Close.{reap_expired_locked}
use remotelink.Registry.Lifecycle.{with_session}
use remotelink.Registry.Valid.{IsValid}
use remotelink.Registry.Valid.Closing.{lookup-reap, reap-SameFrame}
use remotelink.Registry.SessionSteps.{relay-IsValid}
use remotelink.Registry.Relay.{
  relay_media_signal, relay_body, relayed, is_ice, wrong_role, is_active,
}

saturating_add_lem : (n : ℕ) → n < u64_max → saturating_add n 1 ≡ n + 1
unfolding saturating_add
saturating_add_lem n h = ground arith

saturating_add_max : saturating_add u64_max 1 ≡ u64_max
unfolding saturating_add
saturating_add_max = refl

module _ {Value : Type 0} (live : ConnTx → Bool) where
  relay_body_stale :
      (from : ConnId) (msg : SignalMessage Value) (sid : String) (seq : ℕ) (s : Session)
      (g : SessionRegistry Value)
      → seq < s.next_signal_seq
      → (relay_body live from msg sid seq s g).0 ≡ g
  unfolding relay_body
  relay_body_stale from msg sid seq s g old = ground arith

  -- A relayed message that is no ICE candidate was delivered.
  relay_delivers :
      (now : ℕ) (from : ConnId) (msg : SignalMessage Value) (g g' : SessionRegistry Value)
      (sid : String) (seq : ℕ)
      → relayed msg ≡ some (sid, seq)
      → is_ice msg ≡ false
      → relay_media_signal live now from msg g ≡ (g', ok tt)
      → (s : Session) × Delivered live from msg sid seq s (reap_expired_locked live now g) g'
  unfolding relay_media_signal
  relay_delivers now from msg g g' sid seq takes not_ice e =
      let h = reap_expired_locked live now g in
      elim (Option-cases (lookup String_discrete sid h.sessions)) [
        | inl miss ↦ absurd (ground (arith, takes, miss))
        | inr (s, hit) ↦
            elim (relay_body_ok live from msg sid seq s h g' (ground (arith, takes, hit))) [
              | inl d ↦ (s, d)
              | inr (ice, _, _) ↦ absurd (ground (arith, IsCandidate-is_ice msg ice, not_ice))
            ]
      ]

  -- The session afterwards.
  stored_after :
      {from : ConnId} {msg : SignalMessage Value} {sid : String} {seq : ℕ} {s : Session}
      {g g' : SessionRegistry Value}
      → Delivered live from msg sid seq s g g'
      → lookup String_discrete sid g'.sessions
        ≡ some (record s { next_signal_seq = saturating_add seq 1 })
  stored_after {sid} {seq} {s} {g} d =
      let s' : Session = record s { next_signal_seq = saturating_add seq 1 } in
      ground (arith, d.effect.3, lookup-insert_self String_discrete sid s' g.sessions)

  -- In a valid registry, right after a message that is no ICE candidate has been relayed, a relay
  -- call for that session with the same number or a lower one, whoever makes it and at whatever
  -- time, does no more than reap. The number is below the largest that 64 bits hold.
  pub relay_no_replay :
      (now now' : ℕ) (from from' : ConnId) (msg msg' : SignalMessage Value)
      (g g' : SessionRegistry Value) (sid : String) (seq seq' : ℕ)
      → IsValid g
      → relayed msg ≡ some (sid, seq)
      → is_ice msg ≡ false
      → relay_media_signal live now from msg g ≡ (g', ok tt)
      → relayed msg' ≡ some (sid, seq')
      → seq' ≤ seq
      → seq < u64_max
      → (relay_media_signal live now' from' msg' g').0 ≡ reap_expired_locked live now' g'
  unfolding relay_media_signal with_session
  relay_no_replay now now' from from' msg msg' g g' sid seq seq' v takes not_ice e takes' older
        fits =
      let h = reap_expired_locked live now' g' in
      let (s, d) = relay_delivers now from msg g g' sid seq takes not_ice e in
      let stored = stored_after d in
      let v' : IsValid g' = subst (λ r. IsValid r.0) e (relay-IsValid live now from msg g v) in
      elim (Option-cases (lookup String_discrete sid h.sessions)) [
        | inl miss ↦ rw (takes', relay_media_signal, miss, with_session)
        | inr (s', hit) ↦
            rw (takes', relay_media_signal, hit, with_session)
              (relay_body_stale from' msg' sid seq' s' h (
                ground
                  (arith, hit, stored, lookup-reap live now' sid g' v', saturating_add_lem seq)))
      ]

  relay_body_again :
      (from : ConnId) (msg : SignalMessage Value) (sid : String) (s₀ s : Session)
      (g : SessionRegistry Value)
      → (s₀.host_conn ≡ from) ⊎ (s₀.viewer_conn ≡ from)
      → is_active s₀.state ≡ true
      → wrong_role (s₀.host_conn == from) msg ≡ none
      → s ≡ record s₀ { next_signal_seq = u64_max }
      → (tx : ConnTx) → lookup ℕ_discrete (peer_of from s₀) g.conns ≡ some tx
      → live tx ≡ true
      → (relay_body live from msg sid u64_max s g).1 ≡ ok tt
  unfolding relay_body
  relay_body_again from msg sid s₀ s g party on role e tx found heard = rw e (ground arith)

  -- The largest number is the exception: in a valid registry, right after a message of that number
  -- that is no ICE candidate has been relayed, the same call is answered `ok` again, if the session
  -- has not expired and the same channels are open.
  pub relay_replay_at_max :
      (now now' : ℕ) (from : ConnId) (msg : SignalMessage Value) (g g' : SessionRegistry Value)
      (sid : String) (s : Session)
      → IsValid g
      → relayed msg ≡ some (sid, u64_max)
      → is_ice msg ≡ false
      → relay_media_signal live now from msg g ≡ (g', ok tt)
      → lookup String_discrete sid g'.sessions ≡ some s
      → now' < s.expires_at
      → (relay_media_signal live now' from msg g').1 ≡ ok tt
  unfolding relay_media_signal with_session
  relay_replay_at_max now now' from msg g g' sid s v takes not_ice e stored lasts =
      let h = reap_expired_locked live now' g' in
      let (s₀, d) = relay_delivers now from msg g g' sid u64_max takes not_ice e in
      let v' : IsValid g' = subst (λ r. IsValid r.0) e (relay-IsValid live now from msg g v) in
      let hit : lookup String_discrete sid h.sessions ≡ some s =
        ground (arith, stored, lookup-reap live now' sid g' v') in
      rw (takes, relay_media_signal, hit, with_session)
        (relay_body_again from msg sid s₀ s h d.is_party (ground (arith, d.was_active))
          (HasRole-wrong_role from s₀ msg d.has_role)
          (ground (arith, stored, stored_after d, saturating_add_max)) d.effect.0
          (ground (arith, d.effect, (reap-SameFrame live now' g').same_conns)) d.effect.2)
