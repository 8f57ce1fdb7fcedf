-- ===== src/Tests/Registry.antt =====
-- The registry's properties on a short history: a host and a viewer connect, a session is created,
-- accepted and used.
use remotelink.Prelude.{
  ℕ, Bool, true, false, some, none, ◌≡◌, refl, String, String_discrete, ℕ_discrete, ok, err,
}
use text.Mathlib.TextEquality.{eq_iff}
use remotelink.Map.{lookup, remove, insert, keys_where}
use remotelink.Prelude.{[], ◌⊎◌, ◌<◌, ◌≤◌, ◌↔◌, ◌≢◌, ◌==◌, arith}
use remotelink.Registry.Lifecycle.{end_session, end_body}
use remotelink.Registry.State.{ConnId, u64_max}
use remotelink.Protocol.{
  SignalMessage, Role, SessionMode, session_offer, renegotiate, session_reject, session_end, error,
  plain, busy, pending, active,
}
use remotelink.Registry.State.{
  SessionRegistry, Session, ConnTx, PeerIdentity, with_ttls, notify, post, saturating_add,
  checked_add,
}
use remotelink.Registry.Close.{
  is_expired, drop_session, announce_end, close_session_locked, close_each, reap_expired_locked,
}
use remotelink.Registry.Presence.{register_conn, bind_peer, unregister_conn, publish, publish_host}
use remotelink.Registry.Lifecycle.{
  CreatePendingSession, create_pending_session, create_after_reap, install, new_session,
  accept_session, with_session, accept_body, activate, refuse_answer,
}
use remotelink.Registry.Relay.{relay_media_signal, relay_body, forward, relayed, is_ice, wrong_role}
use remotelink.Registry.Valid.{IsValid}
use remotelink.Registry.Outcomes.{
  Created, Untouched, create_ok, create_err, create_busy, create_after_expiry,
}
use remotelink.Registry.Media.{Delivered, peer_of, IsMedia, IsCandidate, relay_ok}
use remotelink.Registry.Replay.{relay_no_replay}
use remotelink.Registry.Answers.{accept_iff, Told, end_ok}
use remotelink.Registry.Reconnect.{reconnect_keeps}
use remotelink.Registry.History.{Reachable, Step, Reachable-IsValid}

abbrev everyone : ConnTx → Bool
everyone tx = true

abbrev host_identity : PeerIdentity
host_identity = record {
  role = Role.host;
  device_public_id = some "0123456789";
  device_id = some 7;
  anonymous = false;
}

abbrev request : CreatePendingSession ℕ
request = record {
  viewer_conn = 2;
  session_id = "s";
  host_public_id = "0123456789";
  host_device_id = 7;
  mode = SessionMode.otp;
  signal_seq = 1;
  viewer_info = 0;
}

abbrev connected : SessionRegistry ℕ
connected =
    bind_peer everyone 1 host_identity ((register_conn ((register_conn (with_ttls 100 1000)).0)).0)

abbrev created : SessionRegistry ℕ
created = (create_pending_session everyone 10 request connected).0

abbrev accepted : SessionRegistry ℕ
accepted = (accept_session everyone 20 1 "s" 3 created).0

accepted-Reachable : Reachable 100 1000 accepted
accepted-Reachable =
    Reachable.next
      (Reachable.next
        (Reachable.next
          (Reachable.next (Reachable.next Reachable.start Step.registers) Step.registers)
          (Step.binds everyone 1 host_identity))
        (Step.creates everyone 10 request))
      (Step.accepts everyone 20 1 "s" 3)

Reachable-IsValid_example : IsValid accepted
Reachable-IsValid_example = Reachable-IsValid accepted-Reachable

connected_valid : IsValid connected
connected_valid = Reachable-IsValid (
    Reachable.next (Reachable.next (Reachable.next Reachable.start Step.registers) Step.registers)
      (Step.binds everyone 1 host_identity))

created_valid : IsValid created
created_valid = Reachable-IsValid (
    Reachable.next
      (Reachable.next
        (Reachable.next (Reachable.next Reachable.start Step.registers) Step.registers)
        (Step.binds everyone 1 host_identity))
      (Step.creates everyone 10 request))

abbrev offer : SignalMessage ℕ
offer = session_offer "s" 4 "v=0" "fp"

abbrev offered : SessionRegistry ℕ
offered = (relay_media_signal everyone 30 1 offer accepted).0

-- The session after it was accepted.
abbrev running : Session
running = record {
  session_id = "s";
  host_public_id = "0123456789";
  host_device_id = 7;
  host_conn = 1;
  viewer_conn = 2;
  mode = SessionMode.otp;
  state = active;
  next_signal_seq = 4;
  created_at = 10;
  expires_at = 1020;
}

relay_ok_example :
    let h = reap_expired_locked everyone 30 accepted in
    (sid : String) × (seq : ℕ) × (s : Session) × IsMedia sid seq offer
    × (lookup String_discrete sid h.sessions ≡ some s)
    × (Delivered everyone 1 offer sid seq s h offered
        ⊎ (IsCandidate offer × (seq < s.next_signal_seq) × (offered ≡ h)))
unfolding create_pending_session create_after_reap reap_expired_locked close_each keys_where lookup
    String_discrete ℕ_discrete bind_peer publish publish_host register_conn with_ttls install notify
    post insert remove checked_add is_expired accept_session with_session accept_body refuse_answer
    activate relay_media_signal relay_body forward relayed is_ice wrong_role new_session
    saturating_add close_session_locked drop_session announce_end end_session end_body
relay_ok_example = relay_ok everyone 30 1 offer accepted offered refl

-- The viewer has gone: nothing is received on its channel.
abbrev host_only : ConnTx → Bool
host_only tx = tx == 1

abbrev unheard : SessionRegistry ℕ
unheard = (relay_media_signal host_only 30 1 offer accepted).0

relay_no_replay_example :
    (relay_media_signal everyone 40 1 offer offered).0 ≡ reap_expired_locked everyone 40 offered
unfolding create_pending_session create_after_reap reap_expired_locked close_each keys_where lookup
    String_discrete ℕ_discrete bind_peer publish publish_host register_conn with_ttls install notify
    post insert remove checked_add is_expired accept_session with_session accept_body refuse_answer
    activate relay_media_signal relay_body forward relayed is_ice wrong_role new_session
    saturating_add close_session_locked drop_session announce_end end_session end_body
relay_no_replay_example =
    relay_no_replay everyone 30 40 1 1 offer offer accepted offered "s" 4 4
      (Reachable-IsValid accepted-Reachable) refl refl refl refl (omega arith) (omega arith)

abbrev last : SignalMessage ℕ
last = renegotiate "s" u64_max

abbrev renegotiated : SessionRegistry ℕ
renegotiated = (relay_media_signal everyone 30 1 last accepted).0

create_ok_example :
    (host_conn : ConnId) × Created everyone 10 request host_conn
      (reap_expired_locked everyone 10 connected)
      created
unfolding create_pending_session create_after_reap reap_expired_locked close_each keys_where lookup
    String_discrete ℕ_discrete bind_peer publish publish_host register_conn with_ttls install notify
    post insert remove checked_add is_expired accept_session with_session accept_body refuse_answer
    activate relay_media_signal relay_body forward relayed is_ice wrong_role new_session
    saturating_add close_session_locked drop_session announce_end end_session end_body
create_ok_example = create_ok everyone 10 request connected created refl

abbrev rejected : SessionRegistry ℕ
rejected = (create_pending_session host_only 10 request (record connected { conns = [] })).0

create_err_example :
    Untouched host_only 10 request
      (reap_expired_locked host_only 10 (record connected { conns = [] }))
      rejected
unfolding create_pending_session create_after_reap reap_expired_locked close_each keys_where lookup
    String_discrete ℕ_discrete bind_peer publish publish_host register_conn with_ttls install notify
    post insert remove checked_add is_expired accept_session with_session accept_body refuse_answer
    activate relay_media_signal relay_body forward relayed is_ice wrong_role new_session
    saturating_add close_session_locked drop_session announce_end end_session end_body
create_err_example =
    create_err host_only 10 request (record connected { conns = [] }) rejected
      (error "host_offline" (plain "host disconnected before session_incoming")) refl

abbrev second_request : CreatePendingSession ℕ
second_request = record request { session_id = "t" }

create_busy_example :
    create_pending_session everyone 30 second_request accepted
    ≡ (reap_expired_locked everyone 30 accepted, err (session_reject "t" (saturating_add 1 1) busy))
unfolding create_pending_session create_after_reap reap_expired_locked close_each keys_where lookup
    String_discrete ℕ_discrete bind_peer publish publish_host register_conn with_ttls install notify
    post insert remove checked_add is_expired accept_session with_session accept_body refuse_answer
    activate relay_media_signal relay_body forward relayed is_ice wrong_role new_session
    saturating_add close_session_locked drop_session announce_end end_session end_body
create_busy_example =
    create_busy everyone 30 second_request accepted "s" running
      (Reachable-IsValid accepted-Reachable) refl refl (omega arith) refl

only_session :
    (sid : String) (s : Session)
    → lookup String_discrete sid accepted.sessions ≡ some s
    → s.host_public_id ≡ "0123456789"
    → s.expires_at ≤ 2000
unfolding create_pending_session create_after_reap reap_expired_locked close_each keys_where lookup
    String_discrete ℕ_discrete bind_peer publish publish_host register_conn with_ttls install notify
    post insert remove checked_add is_expired accept_session with_session accept_body refuse_answer
    activate relay_media_signal relay_body forward relayed is_ice wrong_role new_session
    saturating_add close_session_locked drop_session announce_end end_session end_body
only_session sid s e p = ground (arith, e)

create_after_expiry_example :
    (create_pending_session everyone 2000 second_request accepted).1 ≡ ok tt
unfolding create_pending_session create_after_reap reap_expired_locked close_each keys_where lookup
    String_discrete ℕ_discrete bind_peer publish publish_host register_conn with_ttls install notify
    post insert remove checked_add is_expired accept_session with_session accept_body refuse_answer
    activate relay_media_signal relay_body forward relayed is_ice wrong_role new_session
    saturating_add close_session_locked drop_session announce_end end_session end_body
create_after_expiry_example =
    create_after_expiry everyone 2000 second_request accepted 1 1
      (Reachable-IsValid accepted-Reachable) refl refl refl only_session refl (omega arith)

accept_iff_example : ((accept_session everyone 20 1 "s" 3 created).1 ≡ ok tt) ↔ (
    (s : Session) × (lookup String_discrete "s" (reap_expired_locked everyone 20 created).sessions
      ≡ some s)
    × (s.host_conn ≡ 1)
    × (s.state ≡ pending)
    × (s.next_signal_seq ≤ 3))
accept_iff_example = accept_iff everyone 20 1 "s" 3 created

abbrev ended : SessionRegistry ℕ
ended = (end_session everyone 50 2 "s" 9 "bye" accepted).0

s-ne-t : ◌≢◌ {A = String} "s" "t"
s-ne-t e = ground (arith, eq_iff "s" "t")

end_ok_example :
    let h = reap_expired_locked everyone 50 accepted in
    (s : Session) × (lookup String_discrete "s" h.sessions ≡ some s)
    × ((s.host_conn ≡ 2) ⊎ (s.viewer_conn ≡ 2))
    × (s.next_signal_seq ≤ 9)
    × (lookup String_discrete "s" ended.sessions ≡ none)
    × (lookup String_discrete s.host_public_id ended.host_busy ≡ none)
    × Told everyone h.conns (peer_of 2 s) (session_end "s" 9 "bye") h.sent ended.sent
    × (lookup String_discrete "t" ended.sessions ≡ lookup String_discrete "t" h.sessions)
unfolding create_pending_session create_after_reap reap_expired_locked close_each keys_where lookup
    String_discrete ℕ_discrete bind_peer publish publish_host register_conn with_ttls install notify
    post insert remove checked_add is_expired accept_session with_session accept_body refuse_answer
    activate relay_media_signal relay_body forward relayed is_ice wrong_role new_session
    saturating_add close_session_locked drop_session announce_end end_session end_body
end_ok_example =
    end_ok everyone 50 2 "s" 9 "bye" "t" accepted ended (Reachable-IsValid accepted-Reachable) refl
      s-ne-t

reconnect_keeps_example :
    lookup String_discrete "s"
      (unregister_conn everyone 1 (bind_peer everyone 3 host_identity accepted)).sessions
    ≡ some (record running { host_conn = 3 })
unfolding create_pending_session create_after_reap reap_expired_locked close_each keys_where lookup
    String_discrete ℕ_discrete bind_peer publish publish_host register_conn with_ttls install notify
    post insert remove checked_add is_expired accept_session with_session accept_body refuse_answer
    activate relay_media_signal relay_body forward relayed is_ice wrong_role new_session
    saturating_add close_session_locked drop_session announce_end end_session end_body
reconnect_keeps_example =
    reconnect_keeps everyone 3 1 "0123456789" host_identity "s" running accepted
      (Reachable-IsValid accepted-Reachable) refl refl refl (λ e. ground (arith, e)) refl refl
      (λ e. ground (arith, e))

abbrev same : String → String
same token = token
