-- ===== src/Registry/Steps.antt =====
-- The calls on connections, the creation of sessions, and the work of each session call keep the
-- registry valid.
use remotelink.Prelude.{
  ℕ, ◌≤◌, ◌≡◌, Bool, Option, none, some, inl, inr, String, String_discrete, arith, Option-cases,
  Bool-cases, ◌==◌, ℕ_discrete, false,
}
use remotelink.Map.{lookup, insert, remove, remove_all, keys_where, unless}
use remotelink.Map.Laws.{lookup-insert_self}
use remotelink.Protocol.{SignalMessage, RejectReason, Role, host, viewer}
use remotelink.Registry.State.{
  Session, SessionRegistry, ConnId, ConnTx, PeerIdentity, saturating_add, u64_max,
}
use remotelink.Registry.Close.{reap_expired_locked, drop_session}
use remotelink.Registry.Presence.{
  unregister_conn, bind_peer, publish, publish_host, send_to, involves,
}
use remotelink.Registry.Lifecycle.{
  CreatePendingSession, install, new_session, create_pending_session, accept_body, reject_body,
  end_body, activate,
}
use remotelink.Registry.Relay.{relay_body}
use remotelink.Registry.Cases.{create_cases, checked_add_lem}
use remotelink.Registry.Valid.{SessionOk, Consistent, IsValid}
use remotelink.Registry.Valid.Tables.{
  drop-Consistent, update-Consistent, add-Consistent, publish-Consistent, rebind-Consistent,
  unpublish-Consistent,
}
use remotelink.Registry.Valid.Closing.{
  reap-IsValid, close_each-Consistent, close_each-SameFrame, lookup-close_where,
}

pub saturating_add-le : (a b : ℕ) → saturating_add a b ≤ u64_max
unfolding saturating_add
saturating_add-le a b = ground arith

module _ {Value : Type 0} (live : ConnTx → Bool) where
  publish_host-IsValid :
      (conn : ConnId) (pid : String) (g : SessionRegistry Value)
      → IsValid g
      → IsValid (publish_host live conn pid g)
  unfolding publish_host
  publish_host-IsValid conn pid g v =
      elim (Option-cases (lookup String_discrete pid g.host_by_public_id)) [
        | inl free ↦
            rw (free, publish_host)
              (publish-Consistent g.sessions g.host_busy g.host_by_public_id v pid conn (inl free))
        | inr (old, taken) ↦ elim (Bool-cases (old == conn)) [
          | inl same ↦
              rw (taken, publish_host, same)
                (publish-Consistent g.sessions g.host_busy g.host_by_public_id v pid conn
                  (inr (ground arith)))
          | inr other ↦
              rw (taken, publish_host, other)
                (rebind-Consistent g.sessions g.host_busy g.host_by_public_id v pid old conn taken)
        ]
      ]

  publish-IsValid :
      (conn : ConnId) (role : Role) (pid : Option String) (g : SessionRegistry Value)
      → IsValid g
      → IsValid (publish live conn role pid g)
  unfolding publish
  publish-IsValid conn host (some pid) g v = publish_host-IsValid conn pid g v
  publish-IsValid conn host none g v = v
  publish-IsValid conn viewer _ g v = v

  pub bind_peer-IsValid :
      (conn : ConnId) (identity : PeerIdentity) (g : SessionRegistry Value)
      → IsValid g
      → IsValid (bind_peer live conn identity g)
  unfolding bind_peer
  bind_peer-IsValid conn identity g v =
      publish-IsValid conn identity.role identity.device_public_id g v

  pub unregister_conn-IsValid :
      (conn : ConnId) (g : SessionRegistry Value)
      → IsValid g
      → IsValid (unregister_conn live conn g)
  unfolding unregister_conn
  unregister_conn-IsValid conn g v =
      let H = g.host_by_public_id in
      let g' : SessionRegistry Value = record g {
        conns = remove ℕ_discrete conn g.conns;
        peers = remove ℕ_discrete conn g.peers;
        host_by_public_id = remove_all String_discrete (keys_where (λ cid. cid == conn) H) H;
      } in
      let sids = keys_where (involves conn) g.sessions in
      rw (close_each-SameFrame live sids "peer_disconnected" g').same_hosts (
        unpublish-Consistent _ _ H (close_each-Consistent live H sids "peer_disconnected" g' v) conn
          (λ sid s e.
            away sid s
              (lookup-close_where live (involves conn) "peer_disconnected" sid g'
                v.sessions_distinct)
              e))
    where
      away :
          (sid : String) (s : Session) {o : Option Session}
          → o ≡ unless (involves conn) (lookup String_discrete sid g.sessions)
          → o ≡ some s
          → (s.host_conn == conn) ≡ false
      away sid s e h = unfold involves in ground arith

  install-IsValid :
      (now : ℕ) (req : CreatePendingSession Value) (host_conn : ConnId) (seq next : ℕ)
      (g : SessionRegistry Value)
      → IsValid g
      → lookup String_discrete req.session_id g.sessions ≡ none
      → lookup String_discrete req.host_public_id g.host_busy ≡ none
      → lookup String_discrete req.host_public_id g.host_by_public_id ≡ some host_conn
      → next ≤ u64_max
      → IsValid (install live now req host_conn seq next g).0
  unfolding install
  install-IsValid now req host_conn seq next g v fresh free published fits =
      let s = new_session now g.pending_ttl req host_conn next in
      let sessions = insert String_discrete req.session_id s g.sessions in
      let locks = insert String_discrete req.host_public_id req.session_id g.host_busy in
      let added : Consistent sessions locks g.host_by_public_id =
        add-Consistent g.sessions g.host_busy g.host_by_public_id v req.session_id s fresh free (
          ground (
            arith,
            published,
            lookup-insert_self String_discrete req.host_public_id req.session_id g.host_busy,
          )) in
      let dropped =
        drop-Consistent sessions locks g.host_by_public_id added req.session_id s
          (lookup-insert_self String_discrete req.session_id s g.sessions) in
      ground (arith, added, dropped)

  pub relay_body-IsValid :
      (from : ConnId) (msg : SignalMessage Value) (sid : String) (seq : ℕ) (s : Session)
      (g : SessionRegistry Value)
      → IsValid g
      → lookup String_discrete sid g.sessions ≡ some s
      → IsValid (relay_body live from msg sid seq s g).0
  unfolding relay_body
  relay_body-IsValid from msg sid seq s g v hit = ground (
    arith,
    v,
    update-Consistent g.sessions g.host_busy g.host_by_public_id v sid s
        (record s { next_signal_seq = saturating_add seq 1 }) hit o,
  )
    where
      o :
          SessionOk g.host_busy g.host_by_public_id sid
            (record s { next_signal_seq = saturating_add seq 1 })
      o = ground (arith, v.each sid s hit, saturating_add-le seq 1)

  pub send_to-IsValid :
      (conn : ConnId) (msg : SignalMessage Value) (g : SessionRegistry Value)
      → IsValid g
      → IsValid (send_to live conn msg g).0
  unfolding send_to
  send_to-IsValid conn msg g v = ground (arith, v)

  pub create-IsValid :
      (now : ℕ) (req : CreatePendingSession Value) (g : SessionRegistry Value)
      → IsValid g
      → IsValid (create_pending_session live now req g).0
  unfolding create_pending_session
  create-IsValid now req g v =
      let w = reap-IsValid live now g v in
      create_cases live (λ r. IsValid r.0) now req (reap_expired_locked live now g) (λ _. w)
        (λ conn seq next fresh free published _ e.
          install-IsValid now req conn seq next _ w fresh free published
            (checked_add_lem seq next e).1)

  -- The bodies of the calls on one session, at a registry that has it.
  module _ (sid : String) (s : Session) (g : SessionRegistry Value) (v : IsValid g)
      (hit : lookup String_discrete sid g.sessions ≡ some s) where
    dropped : IsValid (drop_session sid s g)
    unfolding drop_session
    dropped = drop-Consistent g.sessions g.host_busy g.host_by_public_id v sid s hit

    pub accept_body-IsValid :
        (now : ℕ) (from : ConnId) (seq : ℕ) → IsValid (accept_body live now from sid seq s g).0
    unfolding accept_body activate
    accept_body-IsValid now from seq = ground (
      arith,
      v,
      update-Consistent g.sessions g.host_busy g.host_by_public_id v sid s
          (activate now g.active_ttl seq s) hit
          (ground (arith, v.each sid s hit, saturating_add-le seq 1)),
    )

    pub reject_body-IsValid :
        (from : ConnId) (seq : ℕ) (reason : RejectReason)
        → IsValid (reject_body live from sid seq reason s g).0
    unfolding reject_body
    reject_body-IsValid from seq reason = ground (arith, v, dropped)

    pub end_body-IsValid :
        (from : ConnId) (seq : ℕ) (reason : String)
        → IsValid (end_body live from sid seq reason s g).0
    unfolding end_body
    end_body-IsValid from seq reason = ground (arith, v, dropped)
