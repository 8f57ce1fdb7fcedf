-- ===== src/Registry/History.antt =====
-- Histories of the registry: any calls, in any order, by any connections, at any times.
use remotelink.Prelude.{ℕ, Bool, String}
use remotelink.Map.{lookup}
use remotelink.Protocol.{SignalMessage, RejectReason}
use remotelink.Registry.State.{SessionRegistry, ConnId, ConnTx, PeerIdentity, with_ttls}
use remotelink.Registry.Close.{reap_expired}
use remotelink.Registry.Presence.{
  register_conn, unregister_conn, bind_peer, send_to, mint_viewer_token,
}
use remotelink.Registry.Lifecycle.{
  CreatePendingSession, create_pending_session, accept_session, reject_session, end_session,
  force_disconnect, busy_session_for_host, session_state, force_expire_session,
}
use remotelink.Registry.Relay.{relay_media_signal}
use remotelink.Registry.Valid.{IsValid}
use remotelink.Registry.Valid.Closing.{reap-IsValid}
use remotelink.Registry.Steps.{
  bind_peer-IsValid, send_to-IsValid, unregister_conn-IsValid, create-IsValid,
}
use remotelink.Registry.SessionSteps.{
  accept-IsValid, reject-IsValid, end-IsValid, relay-IsValid, force_disconnect-IsValid,
  force_expire-IsValid,
}

-- One call. The receivers that are alive are chosen anew for each.
pub data Step {Value : Type 0} (g : SessionRegistry Value) : SessionRegistry Value → Type 0 where
  registers : Step g (register_conn g).0
  unregisters : (live : ConnTx → Bool) (conn : ConnId) → Step g (unregister_conn live conn g)
  binds :
      (live : ConnTx → Bool) (conn : ConnId) (identity : PeerIdentity)
      → Step g (bind_peer live conn identity g)
  sends :
      (live : ConnTx → Bool) (conn : ConnId) (msg : SignalMessage Value)
      → Step g (send_to live conn msg g).0
  mints :
      (hash_token : String → String) (body : String) (now : ℕ)
      → Step g (mint_viewer_token hash_token body now g).0
  reaps : (live : ConnTx → Bool) (now : ℕ) → Step g (reap_expired live now g).0
  creates :
      (live : ConnTx → Bool) (now : ℕ) (req : CreatePendingSession Value)
      → Step g (create_pending_session live now req g).0
  accepts :
      (live : ConnTx → Bool) (now : ℕ) (from : ConnId) (sid : String) (seq : ℕ)
      → Step g (accept_session live now from sid seq g).0
  rejects :
      (live : ConnTx → Bool) (now : ℕ) (from : ConnId) (sid : String) (seq : ℕ)
      (reason : RejectReason)
      → Step g (reject_session live now from sid seq reason g).0
  ends :
      (live : ConnTx → Bool) (now : ℕ) (from : ConnId) (sid : String) (seq : ℕ) (reason : String)
      → Step g (end_session live now from sid seq reason g).0
  relays :
      (live : ConnTx → Bool) (now : ℕ) (from : ConnId) (msg : SignalMessage Value)
      → Step g (relay_media_signal live now from msg g).0
  disconnects :
      (live : ConnTx → Bool) (now : ℕ) (sid reason : String)
      → Step g (force_disconnect live now sid reason g).0
  asks_busy :
      (live : ConnTx → Bool) (now : ℕ) (pid : String)
      → Step g (busy_session_for_host live now pid g).0
  asks_state :
      (live : ConnTx → Bool) (now : ℕ) (sid : String) → Step g (session_state live now sid g).0
  expires :
      (live : ConnTx → Bool) (now now' : ℕ) (sid : String)
      → Step g (force_expire_session live now now' sid g).0

-- What a registry with these times to live can become.
pub data Reachable {Value : Type 0} (pending_ttl active_ttl : ℕ)
    : SessionRegistry Value → Type 0 where
  start : Reachable pending_ttl active_ttl (with_ttls pending_ttl active_ttl)
  next :
      {g h : SessionRegistry Value}
      → Reachable pending_ttl active_ttl g
      → Step g h
      → Reachable pending_ttl active_ttl h

new-IsValid :
    (Value : Type 0) (pending_ttl active_ttl : ℕ)
    → IsValid (with_ttls {Value = Value} pending_ttl active_ttl)
unfolding with_ttls lookup
new-IsValid Value pending_ttl active_ttl = record {
  sessions_distinct = tt;
  hosts_distinct = tt;
  each = λ sid s e. cc;
  owned = λ pid sid e. absurd (cc);
}

module _ {Value : Type 0} where
  pub Step-IsValid : {g h : SessionRegistry Value} → Step g h → IsValid g → IsValid h
  unfolding register_conn send_to mint_viewer_token reap_expired busy_session_for_host session_state
  Step-IsValid registers v = v
  Step-IsValid {g} (unregisters live conn) v = unregister_conn-IsValid live conn g v
  Step-IsValid {g} (binds live conn identity) v = bind_peer-IsValid live conn identity g v
  Step-IsValid {g} (sends live conn msg) v = send_to-IsValid live conn msg g v
  Step-IsValid (mints hash_token body now) v = v
  Step-IsValid {g} (reaps live now) v = reap-IsValid live now g v
  Step-IsValid {g} (creates live now req) v = create-IsValid live now req g v
  Step-IsValid {g} (accepts live now from sid seq) v = accept-IsValid live now from sid seq g v
  Step-IsValid {g} (rejects live now from sid seq reason) v =
      reject-IsValid live now from sid seq reason g v
  Step-IsValid {g} (ends live now from sid seq reason) v =
      end-IsValid live now from sid seq reason g v
  Step-IsValid {g} (relays live now from msg) v = relay-IsValid live now from msg g v
  Step-IsValid {g} (disconnects live now sid reason) v =
      force_disconnect-IsValid live now sid reason g v
  Step-IsValid {g} (asks_busy live now pid) v = reap-IsValid live now g v
  Step-IsValid {g} (asks_state live now sid) v = reap-IsValid live now g v
  Step-IsValid {g} (expires live now now' sid) v = force_expire-IsValid live now now' sid g v

  -- In every history of calls, the sessions, the busy locks and the published hosts agree: each
  -- session stands under its own id, is pending or active, holds the lock of its host, has the
  -- host's published connection and a 64-bit counter, and each lock is held by a session of that
  -- host, so that a host has one session at most.
  pub Reachable-IsValid : {p a : ℕ} {g : SessionRegistry Value} → Reachable p a g → IsValid g
  Reachable-IsValid {p} {a} start = new-IsValid _ p a
  Reachable-IsValid (next r step) = Step-IsValid step (Reachable-IsValid r)
