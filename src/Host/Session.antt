-- ===== src/Host/Session.antt =====
-- The agent's session manager (SessionManager in apps/host/src/session.rs): the session, its
-- authorization and identity, and the gate before the injector. The transport, the capture and the
-- injector are other crates': what they answer is an argument of the call, and their states are
-- parameters. Ids and fingerprints are lists of bytes.
use remotelink.Prelude.{
  ℕ, ◌+◌, ◌-◌, min, Bool, true, false, not, ◌&&◌, Option, none, some, List, [], ◌∷◌, ◌++◌, Result,
  ok, err, leb, if◌then◌else◌, length, drop,
}
use remotelink.Auth.Crypto.{Crypto}
use remotelink.Auth.Otp.{OtpRecord}
use remotelink.Auth.Identity.{
  HostSecret, ChallengeNonce, SessionBindKey, AuthError, IdentityBindState, DcIdentityChallenge,
  new, input_allowed, mark_authorized, complete_dc_bind, authorize_mode_a, authorize_mode_b,
  from_mode_b_secret,
}
use remotelink.Auth.Identity.Wire.{DcIdentityMessage, challenge, response}

abbrev pub u64_max : ℕ
u64_max = 18446744073709551615

abbrev pub accepted_input_cap : ℕ
accepted_input_cap = 64

pub record SessionManager (Event Injector : Type 0) : Type 0 where
  pub session_id : Option (List ℕ)
  pub media : Bool
  pub identity : IdentityBindState
  pub bind_key : Option SessionBindKey
  pub pending_dc_challenge : Option DcIdentityChallenge
  pub accepted_input : List Event
  pub rejected_input_count : ℕ
  pub input_decode_errors : ℕ
  pub input_rate_limited : ℕ
  pub policy_input_enabled : Bool
  pub injector : Injector

-- The errors of this module
pub data SessionError : Type 0 where
  no_session : SessionError
  no_bind_key : SessionError
  not_connected : SessionError
  not_authorized : SessionError
  transport_error : SessionError
  no_pending_challenge : SessionError
  unexpected_challenge : SessionError
  unknown_fingerprint : SessionError
  auth : AuthError → SessionError

-- What the injector answers: the event was injected, dropped by the rate limit, or failed.
pub data Injected : Type 0 where
  injected : Injected
  limited : Injected
  failed : Injected

pub data InputProcessOutcome : Type 0 where
  was_injected : InputProcessOutcome
  rate_limited : InputProcessOutcome
  rejected_gate : InputProcessOutcome
  decode_error : InputProcessOutcome
  inject_error : InputProcessOutcome

abbrev saturating_inc : ℕ → ℕ
saturating_inc n = min (n + 1) u64_max

module _ {Event Injector : Type 0} where
  -- A manager as `with_peer` makes it, with an injector that has been opened
  unfoldable pub with_peer : Injector → SessionManager Event Injector
  with_peer injector = record {
    session_id = none;
    media = false;
    identity = new [];
    bind_key = none;
    pending_dc_challenge = none;
    accepted_input = [];
    rejected_input_count = 0;
    input_decode_errors = 0;
    input_rate_limited = 0;
    policy_input_enabled = false;
    injector = injector;
  }

  unfoldable pub set_input_policy_enabled :
      Bool → SessionManager Event Injector → SessionManager Event Injector
  set_input_policy_enabled enabled m = record m { policy_input_enabled = enabled }

  unfoldable pub injection_allowed : SessionManager Event Injector → Bool
  unfolding input_allowed
  injection_allowed m = m.policy_input_enabled && input_allowed m.identity

  unfoldable pub push_accepted_input :
      Event → SessionManager Event Injector → SessionManager Event Injector
  push_accepted_input event m =
      let kept =
        if leb accepted_input_cap (length m.accepted_input)
        then drop (length m.accepted_input + 1 - accepted_input_cap) m.accepted_input
        else m.accepted_input in
      record m { accepted_input = kept ++ (event ∷ []) }

  -- The injector is opened anew.
  unfoldable pub attach :
      List ℕ → Injector → SessionManager Event Injector → SessionManager Event Injector
  unfolding new
  attach sid reopened m = record {
    session_id = some sid;
    media = false;
    identity = new sid;
    bind_key = none;
    pending_dc_challenge = none;
    accepted_input = [];
    rejected_input_count = 0;
    input_decode_errors = 0;
    input_rate_limited = 0;
    policy_input_enabled = false;
    injector = reopened;
  }

  -- The arguments are what opening the capture and the encoder comes to, whether the peer is still
  -- new, and what creating the offer comes to.
  unfoldable pub start_media :
      Result (Unit {0}) SessionError
      → Bool
      → Result (Unit {0}) SessionError
      → SessionManager Event Injector
      → SessionManager Event Injector × Result (Unit {0}) SessionError
  start_media opened is_new offered m = elim m.session_id [
    | none ↦ (m, err no_session)
    | some _ ↦ if m.media then (m, ok tt) else elim opened [
      | err e ↦ (m, err e)
      | ok _ ↦ (record m { media = true }, if is_new then offered else ok tt)
    ]
  ]

  unfoldable pub stop_media : SessionManager Event Injector → SessionManager Event Injector
  stop_media m = record m { media = false }

  unfoldable pub detach : SessionManager Event Injector → SessionManager Event Injector
  unfolding new
  detach m = record {
    session_id = none;
    media = false;
    identity = new [];
    bind_key = none;
    pending_dc_challenge = none;
    accepted_input = [];
    rejected_input_count = 0;
    input_decode_errors = 0;
    input_rate_limited = 0;
    policy_input_enabled = false;
    injector = m.injector;
  }

  -- The key is kept and the session authorized.
  abbrev authorized_by :
      SessionBindKey → SessionManager Event Injector → SessionManager Event Injector
  authorized_by key m = record m { bind_key = some key; identity = mark_authorized m.identity }

  unfoldable pub authorize_unattended_secret :
      Crypto
      → HostSecret
      → SessionManager Event Injector
      → SessionManager Event Injector × Result (Unit {0}) SessionError
  unfolding from_mode_b_secret mark_authorized
  authorize_unattended_secret crypto secret m = elim m.session_id [
    | none ↦ (m, err no_session)
    | some _ ↦ (authorized_by (from_mode_b_secret crypto secret) m, ok tt)
  ]

  unfoldable pub authorize_session_a :
      Crypto
      → List ℕ
      → List ℕ
      → ℕ
      → OtpRecord
      → SessionManager Event Injector
      → SessionManager Event Injector × OtpRecord × Result (Unit {0}) SessionError
  authorize_session_a crypto code pepper now r m =
      let (r', result) = authorize_mode_a crypto code pepper now r in
      elim result [ ok key ↦ (authorized_by key m, r', ok tt) | err e ↦ (m, r', err (auth e)) ]

  -- `none` is the panic on a field of more than 32 bits' length.
  unfoldable pub authorize_session_b :
      Crypto
      → HostSecret
      → ChallengeNonce
      → List ℕ
      → List ℕ
      → List ℕ
      → SessionManager Event Injector
      → Option (SessionManager Event Injector × Result (Unit {0}) SessionError)
  authorize_session_b crypto secret nonce fp_host fp_viewer mac m = elim m.session_id [
    | none ↦ some (m, err no_session)
    | some sid ↦ elim (authorize_mode_b crypto secret nonce sid fp_host fp_viewer mac) [
      | none ↦ none
      | some result ↦ elim result [
        | ok key ↦ some (authorized_by key m, ok tt)
        | err e ↦ some (m, err (auth e))
      ]
    ]
  ]

  -- The arguments are whether the peer is connected, the nonce that is drawn, and whether sending
  -- the challenge succeeds.
  unfoldable pub start_identity_challenge :
      Bool
      → List ℕ
      → Bool
      → SessionManager Event Injector
      → SessionManager Event Injector × Result (Unit {0}) SessionError
  start_identity_challenge connected nonce sent m = elim m.session_id [
    | none ↦ (m, err no_session)
    | some _ ↦
        if not m.identity.session_authorized then (m, err not_authorized) else elim m.bind_key [
          | none ↦ (m, err no_bind_key)
          | some _ ↦
              if not connected
              then (m, err not_connected)
              else if not sent
              then (m, err transport_error)
              else (record m { pending_dc_challenge = some (record { nonce = nonce }) }, ok tt)
        ]
  ]

  -- The outcome of `complete_dc_bind`
  abbrev pub with_identity :
      IdentityBindState × Result (Unit {0}) AuthError
      → SessionManager Event Injector
      → SessionManager Event Injector × Result (Unit {0}) SessionError
  with_identity (identity, ok _) m = (record m { identity = identity }, ok tt)
  with_identity (identity, err e) m = (record m { identity = identity }, err (auth e))

  -- The message has been parsed. The arguments are the two fingerprints, as far as the transport
  -- knows them.
  unfoldable pub handle_identity_data :
      Crypto
      → Option (List ℕ)
      → Option (List ℕ)
      → DcIdentityMessage
      → SessionManager Event Injector
      → Option (SessionManager Event Injector × Result (Unit {0}) SessionError)
  handle_identity_data crypto fp_host fp_viewer (challenge _) m = some (m, err unexpected_challenge)
  handle_identity_data crypto fp_host fp_viewer (response r) m = elim m.pending_dc_challenge [
    | none ↦ some (m, err no_pending_challenge)
    | some c ↦
        let m = record m { pending_dc_challenge = none } in
        elim m.bind_key [
          | none ↦ some (m, err no_bind_key)
          | some key ↦ elim fp_host [
            | none ↦ some (m, err transport_error)
            | some host ↦ elim fp_viewer [
              | none ↦ some (m, err unknown_fingerprint)
              | some viewer ↦ elim (complete_dc_bind crypto key c r host viewer m.identity) [
                | none ↦ none
                | some bound ↦ some (with_identity bound m)
              ]
            ]
          ]
        ]
  ]

  -- The message's decoding and the injector's answer are parameters.
  unfoldable pub process_input_message :
      (List ℕ → Option Event)
      → (Event → Injector → Injector × Injected)
      → List ℕ
      → SessionManager Event Injector
      → SessionManager Event Injector × InputProcessOutcome
  unfolding injection_allowed push_accepted_input
  process_input_message decode try_inject bytes m =
      if not (injection_allowed m)
      then (
        record m { rejected_input_count = saturating_inc m.rejected_input_count },
        rejected_gate,
      )
      else elim (decode bytes) [
        | none ↦
            (record m { input_decode_errors = saturating_inc m.input_decode_errors }, decode_error)
        | some event ↦
            let (injector, answer) = try_inject event m.injector in
            let m = record m { injector = injector } in
            elim answer [
              | injected ↦ (push_accepted_input event m, was_injected)
              | limited ↦ (
                record m { input_rate_limited = saturating_inc m.input_rate_limited },
                rate_limited,
              )
              | failed ↦ (
                record m { rejected_input_count = saturating_inc m.rejected_input_count },
                inject_error,
              )
            ]
      ]
