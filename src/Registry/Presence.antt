-- ===== src/Registry/Presence.antt =====
-- Connections, peers and viewer tokens (apps/server/src/session.rs, lines 151 to 272).
use remotelink.Prelude.{
  ℕ, ◌+◌, ◌%◌, ◌^◌, Bool, true, false, ◌||◌, Option, none, some, String, ite, leb, ◌==◌,
  if◌then◌else◌, String_discrete, ℕ_discrete,
}
use Prim.Native.String.{◌++◌}
use remotelink.Map.{lookup, insert, remove, remove_all, keys_where, map_values}
use remotelink.Protocol.{Role, host, viewer, SignalMessage, error, plain}
use remotelink.Registry.State.{
  Session, SessionRegistry, PeerIdentity, ConnId, ConnTx, notify, post, viewer_token_ttl,
}
use remotelink.Registry.Close.{close_each}

abbrev pub is_host : Role → Bool
is_host host = true
is_host viewer = false

-- A session that the connection is a party of.
unfoldable pub involves : ConnId → Session → Bool
involves conn s = (s.host_conn == conn) || (s.viewer_conn == conn)

-- The body of the loop in `bind_peer`.
unfoldable pub rebind : ConnId → ConnId → String → Session → Session
rebind old conn public_id s =
    if s.host_conn == old
    then ite (String_discrete s.host_public_id public_id) (record s { host_conn = conn }) s
    else s

module _ {Value : Type 0} (live : ConnTx → Bool) where
  unfoldable pub unregister_conn_locked :
      ConnId → String → SessionRegistry Value → SessionRegistry Value
  unregister_conn_locked conn end_reason g =
      close_each live (keys_where (involves conn) g.sessions) end_reason (record g {
        conns = remove ℕ_discrete conn g.conns;
        peers = remove ℕ_discrete conn g.peers;
        host_by_public_id =
            remove_all String_discrete (keys_where (λ cid. cid == conn) g.host_by_public_id)
              g.host_by_public_id;
      })

  unfoldable pub unregister_conn : ConnId → SessionRegistry Value → SessionRegistry Value
  unfolding unregister_conn_locked
  unregister_conn conn g = unregister_conn_locked conn "peer_disconnected" g

  -- The sessions of the replaced socket move to the new one, and the old one is evicted.
  unfoldable pub replace_host :
      ConnId → ConnId → String → SessionRegistry Value → SessionRegistry Value
  replace_host old conn public_id g = record g {
    sessions = map_values (rebind old conn public_id) g.sessions;
    conns = remove ℕ_discrete old g.conns;
    peers = remove ℕ_discrete old g.peers;
    sent =
        notify live g.conns old
          (error "connection_replaced" (plain "host reconnected on another socket")) g.sent;
  }

  unfoldable pub publish_host : ConnId → String → SessionRegistry Value → SessionRegistry Value
  unfolding replace_host
  publish_host conn public_id g =
      let g' : SessionRegistry Value = record g {
        host_by_public_id = insert String_discrete public_id conn g.host_by_public_id;
      } in
      elim (lookup String_discrete public_id g.host_by_public_id) [
        | none ↦ g'
        | some old ↦ if old == conn then g' else replace_host old conn public_id g'
      ]

  unfoldable pub publish :
      ConnId → Role → Option String → SessionRegistry Value → SessionRegistry Value
  unfolding publish_host
  publish conn host (some public_id) g = publish_host conn public_id g
  publish conn host none g = g
  publish conn viewer _ g = g

  unfoldable pub bind_peer : ConnId → PeerIdentity → SessionRegistry Value → SessionRegistry Value
  unfolding publish
  bind_peer conn identity g =
      let g' = publish conn identity.role identity.device_public_id g in
      record g' { peers = insert ℕ_discrete conn identity g'.peers }

  unfoldable pub send_to :
      ConnId → SignalMessage Value → SessionRegistry Value → SessionRegistry Value × Bool
  send_to conn msg g = elim (lookup ℕ_discrete conn g.conns) [
    | none ↦ (g, false)
    | some tx ↦ (record g { sent = post live tx msg g.sent }, live tx)
  ]

module _ {Value : Type 0} where
  -- The new connection's channel has the connection's number. The id wraps at 64 bits.
  unfoldable pub register_conn : SessionRegistry Value → SessionRegistry Value × ConnId
  register_conn g = (
    record g {
      conns = insert ℕ_discrete g.next_conn_id g.next_conn_id g.conns;
      next_conn_id = (g.next_conn_id + 1) % 2 ^ 64;
    },
    g.next_conn_id,
  )

  unfoldable pub peer : ConnId → SessionRegistry Value → Option PeerIdentity
  peer conn g = lookup ℕ_discrete conn g.peers

-- `hash_token` is a digest by a library, and the token's body is random: both are arguments.
module _ {Value : Type 0} (hash_token : String → String) where
  unfoldable pub mint_viewer_token :
      String → ℕ → SessionRegistry Value → SessionRegistry Value × String
  mint_viewer_token random_token_body now g =
      let token = "rl_vt_" ++ random_token_body in
      (
        record g {
          viewer_tokens =
              insert String_discrete (hash_token token) (now + viewer_token_ttl) g.viewer_tokens;
        },
        token,
      )

  unfoldable pub validate_viewer_token : String → ℕ → SessionRegistry Value → Bool
  validate_viewer_token token now g =
      ite (String_discrete token "") false
        (elim (lookup String_discrete (hash_token token) g.viewer_tokens) [
          | none ↦ false
          | some expires_at ↦ leb now expires_at
        ])
