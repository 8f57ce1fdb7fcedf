-- ===== src/Host/Control/Input.antt =====
-- Which input reaches the injector: of a session that is authorized and bound, with the policy's leave,
-- and none once the kill switch is latched.
use remotelink.Prelude.{
  ℕ, Bool, true, false, not, ◌&&◌, ◌||◌, Option, some, List, ◌≡◌, ◌↔◌, Result, ok, err, arith,
}
use remotelink.Auth.Crypto.{Crypto}
use remotelink.Auth.Otp.{OtpRecord}
use remotelink.Auth.Identity.Wire.{DcIdentityMessage}
use remotelink.Auth.Identity.{HostSecret, ChallengeNonce}
use remotelink.Ipc.Message.{ControlMessage, attach_session}
use remotelink.Host.Session.{
  SessionManager, set_input_policy_enabled, injection_allowed, start_media as start_manager_media,
  stop_media as stop_manager_media, process_input_message, authorize_unattended_secret,
  authorize_session_a, authorize_session_b, handle_identity_data, start_identity_challenge,
  SessionError, push_accepted_input, Injected, rejected_gate,
}
use remotelink.Host.Control.{
  AgentSession, World, new_session, input_injection_allowed, sync_input_policy, handle_control,
  poll_input,
}

module _ {Event Injector : Type 0} where
  -- An input message is turned away just when the session's injection is not allowed, and then the
  -- injector is left alone. Otherwise it is decoded and given to the injector.
  pub poll_input_iff :
      (decode : List ℕ → Option Event) (try_inject : Event → Injector → Injector × Injected)
      (bytes : List ℕ) (s : AgentSession Event Injector)
      → let (s', outcome) = poll_input decode try_inject bytes s in
        ((outcome ≡ rejected_gate) ↔ (input_injection_allowed s ≡ false))
        × (outcome ≡ rejected_gate → s'.manager.injector ≡ s.manager.injector)
        × (s'.state ≡ s.state)
  unfolding poll_input sync_input_policy set_input_policy_enabled input_injection_allowed
      process_input_message injection_allowed push_accepted_input
  poll_input_iff decode try_inject bytes s =
      (((λ e. ground arith), λ e. ground arith), (λ e. ground arith), ground arith)

abbrev is_ok : {A E : Type 0} → Result A E → Bool
is_ok (ok _) = true
is_ok (err _) = false

-- A session is attached by the command, as its reply says.
unfoldable pub attaches : ControlMessage → ControlMessage → Bool
attaches (attach_session a) (ControlMessage.ack _) = true
attaches _ _ = false

-- The sessions that a history of calls leads to, with two notes about the history: an authorization
-- has succeeded, and a binding of the identity has, since a session was last attached.
pub data Reachable {Event Injector : Type 0}
    : AgentSession Event Injector → Bool → Bool → Type 0 where
  started : (i : Injector) → Reachable (new_session i) false false
  commanded :
      {s : AgentSession Event Injector} {authorized is_bound : Bool}
      → Reachable s authorized is_bound
      → (w : World Injector) (msg : ControlMessage)
      → Reachable
          ((handle_control w msg s).0)
          (authorized && not (attaches msg ((handle_control w msg s).1)))
          (is_bound && not (attaches msg ((handle_control w msg s).1)))
  unattended :
      {s : AgentSession Event Injector} {authorized is_bound : Bool}
      → Reachable s authorized is_bound
      → (crypto : Crypto) (secret : HostSecret)
      → Reachable
          (record s { manager = (authorize_unattended_secret crypto secret s.manager).0 })
          (authorized || is_ok ((authorize_unattended_secret crypto secret s.manager).1))
          is_bound
  code_given :
      {s : AgentSession Event Injector} {authorized is_bound : Bool}
      → Reachable s authorized is_bound
      → (crypto : Crypto) (code pepper : List ℕ) (now : ℕ) (r : OtpRecord)
      → Reachable
          (record s { manager = (authorize_session_a crypto code pepper now r s.manager).0 })
          (authorized || is_ok ((authorize_session_a crypto code pepper now r s.manager).2))
          is_bound
  challenge_met :
      {s : AgentSession Event Injector} {authorized is_bound : Bool}
      → Reachable s authorized is_bound
      → (crypto : Crypto) (secret : HostSecret) (nonce : ChallengeNonce)
        (fp_host fp_viewer mac : List ℕ) (m : SessionManager Event Injector)
        (result : Result (Unit {0}) SessionError)
      → authorize_session_b crypto secret nonce fp_host fp_viewer mac s.manager ≡ some (m, result)
      → Reachable (record s { manager = m }) (authorized || is_ok result) is_bound
  challenged :
      {s : AgentSession Event Injector} {authorized is_bound : Bool}
      → Reachable s authorized is_bound
      → (connected : Bool) (nonce : List ℕ) (sent : Bool)
      → Reachable
          (record s { manager = (start_identity_challenge connected nonce sent s.manager).0 })
          authorized
          is_bound
  identified :
      {s : AgentSession Event Injector} {authorized is_bound : Bool}
      → Reachable s authorized is_bound
      → (crypto : Crypto) (fp_host fp_viewer : Option (List ℕ)) (msg : DcIdentityMessage)
        (m : SessionManager Event Injector) (result : Result (Unit {0}) SessionError)
      → handle_identity_data crypto fp_host fp_viewer msg s.manager ≡ some (m, result)
      → Reachable (record s { manager = m }) authorized (is_bound || is_ok result)
  received :
      {s : AgentSession Event Injector} {authorized is_bound : Bool}
      → Reachable s authorized is_bound
      → (decode : List ℕ → Option Event) (try_inject : Event → Injector → Injector × Injected)
        (bytes : List ℕ)
      → Reachable ((poll_input decode try_inject bytes s).0) authorized is_bound

-- The two flags of the identity, against the two notes.
Noted : {Event Injector : Type 0} → AgentSession Event Injector → Bool → Bool → Type 0
Noted s authorized is_bound =
    (s.manager.identity.session_authorized ≡ true → authorized ≡ true)
    × (s.manager.identity.identity_bound ≡ true → is_bound ≡ true)
