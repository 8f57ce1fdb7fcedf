-- ===== src/Registry/Reconnect.antt =====
-- Connections that come and go, and viewer tokens.
use Prim.Native.String.{◌++◌}
use text.Mathlib.TextEquality.{eq_iff}
use text.Mathlib.TextLemmas.{append-eq-nil_iff}
use remotelink.Prelude.{
  ℕ, ◌+◌, ◌≡◌, ◌≢◌, Bool, false, some, String, leb, String_discrete, arith, ◌==◌,
}
use remotelink.Map.{lookup, map_values, unless}
use remotelink.Map.Laws.{lookup-map_values, lookup-insert}
use remotelink.Protocol.{host}
use remotelink.Registry.State.{
  Session, SessionRegistry, ConnId, ConnTx, PeerIdentity, viewer_token_ttl,
}
use remotelink.Registry.Presence.{
  unregister_conn, bind_peer, rebind, involves, mint_viewer_token, validate_viewer_token,
}
use remotelink.Registry.Valid.{IsValid}
use remotelink.Registry.Valid.Closing.{lookup-close_where}
use remotelink.Registry.Steps.{bind_peer-IsValid}

module _ {Value : Type 0} (live : ConnTx → Bool) where
  -- In a valid registry, when a connection goes, exactly the sessions of which it is a party go with it; every other
  -- session stays as it was.
  pub lookup-unregister_conn :
      (conn : ConnId) (sid : String) (g : SessionRegistry Value)
      → IsValid g
      → lookup String_discrete sid (unregister_conn live conn g).sessions
        ≡ unless (involves conn) (lookup String_discrete sid g.sessions)
  unfolding unregister_conn
  lookup-unregister_conn conn sid g v =
      lookup-close_where live (involves conn) "peer_disconnected" sid _ v.sessions_distinct

  lookup-bind_peer :
      (conn old : ConnId) (pid : String) (identity : PeerIdentity) (sid : String)
      (g : SessionRegistry Value)
      → identity.role ≡ host
      → identity.device_public_id ≡ some pid
      → lookup String_discrete pid g.host_by_public_id ≡ some old
      → (old == conn) ≡ false
      → (bind_peer live conn identity g).sessions ≡ map_values (rebind old conn pid) g.sessions
  unfolding bind_peer
  lookup-bind_peer conn old pid identity sid g is_host named published other = ground arith

  -- In a valid registry, a host that comes back on a new connection keeps its sessions: they are bound to the new
  -- connection, and the end of the old one, when it is noticed, no longer closes them. Sessions
  -- of which the old connection is the viewer are left out.
  pub reconnect_keeps :
      (conn old : ConnId) (pid : String) (identity : PeerIdentity) (sid : String) (s : Session)
      (g : SessionRegistry Value)
      → IsValid g
      → identity.role ≡ host
      → identity.device_public_id ≡ some pid
      → lookup String_discrete pid g.host_by_public_id ≡ some old
      → old ≢ conn
      → lookup String_discrete sid g.sessions ≡ some s
      → s.host_public_id ≡ pid
      → s.viewer_conn ≢ old
      → lookup String_discrete sid
          (unregister_conn live old (bind_peer live conn identity g)).sessions
        ≡ some (record s { host_conn = conn })
  unfolding rebind involves
  reconnect_keeps conn old pid identity sid s g v is_host named published other stored same away =
      let g' = bind_peer live conn identity g in
      let moved =
        lookup-bind_peer conn old pid identity sid g is_host named published (ground arith) in
      let left = lookup-unregister_conn old sid g' (bind_peer-IsValid live conn identity g v) in
      ground (
        arith,
        left,
        moved,
        lookup-map_values String_discrete (rebind old conn pid) sid g.sessions,
        stored,
        v.each sid s stored,
      )

token-ne-nil : (body : String) → ◌≢◌ {A = String} ("rl_vt_" ++ body) ""
token-ne-nil body e = ground (arith, (append-eq-nil_iff.0 e).0, eq_iff "rl_vt_" "")

module _ {Value : Type 0} (hash_token : String → String) where
  -- A viewer token is good from its minting until its time to live has passed, and not after.
  pub mint_validate :
      (body : String) (now now' : ℕ) (g : SessionRegistry Value)
      → let (g', token) = mint_viewer_token hash_token body now g in
        validate_viewer_token hash_token token now' g' ≡ leb now' (now + viewer_token_ttl)
  unfolding mint_viewer_token validate_viewer_token
  mint_validate body now now' g =
      let token : String = "rl_vt_" ++ body in
      let held =
        lookup-insert String_discrete (hash_token token) (hash_token token) (now + viewer_token_ttl)
          g.viewer_tokens in
      ground (arith, token-ne-nil body, held)
