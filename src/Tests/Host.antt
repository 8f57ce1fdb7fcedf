-- ===== src/Tests/Host.antt =====
-- The host's properties at concrete sessions.
use remotelink.Prelude.{
  ℕ, ◌+◌, ◌≡◌, ◌≤◌, arith, ap, refl, true, false, Option, none, some, List, [], ◌∷◌, ◌++◌, Result,
  ok, String, String_discrete, take,
}
use remotelink.Text.{codes, as_bytes, encode_utf8, str_len, all_digits, is_ascii_digit}
use remotelink.Text.Trim.{trim}
use remotelink.Auth.Otp.{
  generate_otp_with_rng, hash_otp_with_salt, validate_otp_format, verify, verify_otp,
  verify_and_consume, otp_hash_domain,
}
use remotelink.Auth.Crypto.{Crypto, bytes_eq, bytes_eq_iff}
use remotelink.Auth.Identity.{HostSecret, SessionBindKey, authorize_mode_a}
use remotelink.Auth.Identity.Wire.{DcIdentityMessage, response}
use remotelink.Ipc.Message.{ControlMessage, KillSwitch, KillSwitchSource}
use remotelink.Host.Agent.{
  AgentSessionState, default_state, ack, error, handle, handle_all, handle_kill_switch, kill,
  require_session, require_not_killed,
}
use remotelink.Host.Agent.Latches.{
  Call, is_attach, apply_all, apply, IsValid, apply_all-IsValid, kill_disables_unattended,
  handle-error,
}
use remotelink.Host.Session.{
  SessionManager, SessionError, Injected, attach, authorize_unattended_secret,
  start_identity_challenge, handle_identity_data,
}
use remotelink.Host.Control.{
  AgentSession, World, new_session, handle_control, drive, input_injection_allowed,
}
use remotelink.Protocol.{SessionMode}
use remotelink.Host.Policy.{
  HostAuthService, SessionAcceptDecision, default_local_config, mint_otp, decide_session_accept,
  decide_confirm, decide_mode, policy_allows_mode, try_code, consume_otp, new as new_service,
}
use remotelink.Host.Policy.Decisions.{
  agreed, Grounds, admissions, decide_session_accept-allow, admissions-le_one,
}
use remotelink.Host.Control.Refusals.{
  kill_stops_input, serve_series-refuses, serve_series, handle_series, attaches_none, Presents,
  PresentsNone, AreRefusals,
}

abbrev zeros : List ℕ
zeros =
    0 ∷ 0 ∷ 0 ∷ 0 ∷ 0 ∷ 0 ∷ 0 ∷ 0 ∷ 0 ∷ 0 ∷ 0 ∷ 0 ∷ 0 ∷ 0 ∷ 0 ∷ 0 ∷ 0 ∷ 0 ∷ 0 ∷ 0 ∷ 0 ∷ 0 ∷ 0 ∷ 0
    ∷ 0 ∷ 0 ∷ 0 ∷ 0 ∷ 0 ∷ 0 ∷ 0 ∷ 0 ∷ []

-- A stand-in whose codes have 32 bytes.
abbrev short_crypto : Crypto
short_crypto = record {
  hmac = λ key msg. take 32 (key ++ (msg ++ zeros));
  sha256 = λ msg. msg;
  ct_eq = bytes_eq;
  ct_eq_iff = bytes_eq_iff;
}

abbrev world : World (Unit {0})
world = record {
  reopened = tt;
  opened = ok tt;
  is_new = false;
  offered = ok tt;
  applied = ok tt;
  media_counters = (0, 0);
  connection = "connected";
  show = λ e. "error";
}

abbrev attach_s1 : ControlMessage
attach_s1 = ControlMessage.attach_session (record {
  session_id = "s1";
  viewer_label = none;
  feature_flags = record { synthetic_media = false; stats_export = false; extra = [] };
  turn_uris = [];
  boot_secret = some "boot";
})

abbrev input_on : ControlMessage
input_on = ControlMessage.set_policy (record {
  session_id = "s1";
  enable_input = true;
  unattended = true;
  max_bitrate_bps = 0;
  disable_hw_encode = false;
})

abbrev kill_all : KillSwitch
kill_all = record { session_id = none; disable_unattended = true; source = KillSwitchSource.hotkey }

abbrev secret : HostSecret
secret = record { bytes = 1 ∷ 2 ∷ 3 ∷ [] }

abbrev Session : Type 0
Session = AgentSession ℕ (Unit {0})

abbrev fresh : Session
fresh = new_session tt

abbrev attached : Session
attached = (handle_control world attach_s1 fresh).0

abbrev authorized : Session
authorized = record attached {
  manager = (authorize_unattended_secret short_crypto secret attached.manager).0;
}

abbrev challenged : Session
challenged = record authorized {
  manager = (start_identity_challenge true (7 ∷ []) true authorized.manager).0;
}

abbrev answer : DcIdentityMessage
answer = response (record {
  mac =
      1 ∷ 2 ∷ 3 ∷ b'r' ∷ b'e' ∷ b'm' ∷ b'o' ∷ b't' ∷ b'e' ∷ b'l' ∷ b'i' ∷ b'n' ∷ b'k' ∷ b'-' ∷ b'd'
      ∷ b'c' ∷ b'-' ∷ b'i' ∷ b'd' ∷ b'e' ∷ b'n' ∷ b't' ∷ b'i' ∷ b't' ∷ b'y' ∷ b'-' ∷ b'b' ∷ b'i'
      ∷ b'n' ∷ b'd' ∷ b'-' ∷ b'v' ∷ [];
})

abbrev manager_of :
    Option (SessionManager ℕ (Unit {0}) × Result (Unit {0}) SessionError)
    → SessionManager ℕ (Unit {0})
    → SessionManager ℕ (Unit {0})
manager_of none m = m
manager_of (some (m, _)) _ = m

abbrev identified : Session
identified = record challenged {
  manager =
      manager_of
        (handle_identity_data short_crypto (some (4 ∷ [])) (some (5 ∷ [])) answer
          challenged.manager)
        challenged.manager;
}

abbrev allowed : Session
allowed = (handle_control world input_on identified).0

abbrev one_key : List ℕ → Option ℕ
one_key [] = none
one_key (b ∷ bs) = some b

abbrev inject : ℕ → Unit {0} → Unit {0} × Injected
inject event i = (i, Injected.injected)

kill_stops_input_example :
    input_injection_allowed (
      handle_series
        ((world, input_on) ∷ [])
        ((handle_control world (ControlMessage.kill_switch kill_all) allowed).0))
    ≡ false
unfolding is_attach handle handle_kill_switch kill ack error attaches_none handle_control attach
    require_session require_not_killed drive String_discrete
kill_stops_input_example =
    kill_stops_input kill_all world ((world, input_on) ∷ []) allowed refl refl

apply_all-IsValid_example :
    IsValid (
      apply_all (Call.command attach_s1 ∷ Call.command input_on ∷ Call.reenable ∷ []) default_state)
apply_all-IsValid_example =
    apply_all-IsValid (Call.command attach_s1 ∷ Call.command input_on ∷ Call.reenable ∷ [])

abbrev live : AgentSessionState
live = apply_all (Call.command attach_s1 ∷ Call.command input_on ∷ []) default_state

live-IsValid : IsValid live
live-IsValid = apply_all-IsValid (Call.command attach_s1 ∷ Call.command input_on ∷ [])

kill_disables_unattended_example :
    let after =
      handle_all
        (attach_s1 ∷ input_on ∷ [])
        ((handle (ControlMessage.kill_switch kill_all) live).0) in
    (after.unattended_disabled ≡ true) × (after.unattended ≡ false)
unfolding handle handle_kill_switch kill ack
kill_disables_unattended_example =
    kill_disables_unattended kill_all live (attach_s1 ∷ input_on ∷ []) live-IsValid refl refl

handle-error_example : (handle attach_s1 live).0 ≡ live
unfolding handle error apply_all apply require_session require_not_killed ack String_discrete
handle-error_example =
    handle-error attach_s1 live
      (record { code = "busy"; message = "session already active on host"; session_id = some "s1" })
      live-IsValid refl

-- An attachment with another secret, and a kill switch
abbrev intruder : List (World (Unit {0}) × ControlMessage)
intruder = (world, attach_s1) ∷ (world, ControlMessage.kill_switch kill_all) ∷ []

intruder-PresentsNone : PresentsNone "secret" intruder
unfolding PresentsNone Presents as_bytes codes encode_utf8
intruder-PresentsNone = ((λ p. other p.0 p.1 p.2), ((λ p. p), tt))
  where
    other :
        (got : String)
        → ◌≡◌ {A = Option String} (some "boot") (some got)
        → as_bytes (codes got) ≡ as_bytes (codes "secret")
        → ⊥
    other got e same =
        let text : ◌≡◌ {A = String} "boot" got = ground arith in
        ground (arith, ap (λ t. as_bytes (codes t)) text, same)

serve_series-refuses_example :
    let (s', replies) = serve_series short_crypto (some "secret") intruder fresh in
    (s' ≡ fresh) × AreRefusals replies
unfolding new_session
serve_series-refuses_example =
    serve_series-refuses short_crypto "secret" intruder fresh intruder-PresentsNone refl

abbrev shown_code : List ℕ
shown_code = b'1' ∷ b'2' ∷ b'3' ∷ b'4' ∷ b'5' ∷ b'6' ∷ []

abbrev service : HostAuthService
service =
    record (new_service (record default_local_config { unattended_enabled = true }) (9 ∷ [])) {
      host_secret = some secret;
    }

-- A host that asks for consent, and shows a code
abbrev showing : HostAuthService
showing =
    (mint_otp short_crypto 90 (λ i. i + 1) (take 16 zeros)
      (new_service (record default_local_config { confirm_sessions = true }) (9 ∷ []))).0

abbrev key_of : SessionAcceptDecision → Option SessionBindKey
key_of (SessionAcceptDecision.allow key) = key
key_of _ = none

abbrev shown_key : Option SessionBindKey
shown_key = key_of (
    (decide_session_accept short_crypto SessionMode.otp (some shown_code) (some true) 100
      showing).1)

decide_session_accept-allow_example :
    (agreed (some true) showing ≡ true)
    × Grounds short_crypto SessionMode.otp (some shown_code) 100 showing
unfolding decide_session_accept decide_confirm decide_mode new_service mint_otp
    generate_otp_with_rng hash_otp_with_salt validate_otp_format str_len all_digits is_ascii_digit
    try_code consume_otp take trim authorize_mode_a verify verify_otp verify_and_consume bytes_eq
    otp_hash_domain policy_allows_mode
decide_session_accept-allow_example =
    decide_session_accept-allow short_crypto SessionMode.otp (some shown_code) (some true) 100
      showing shown_key refl

admissions-le_one_example :
    admissions short_crypto
      ((SessionMode.otp, some shown_code, none, 100)
        ∷ (SessionMode.otp, some shown_code, none, 101)
        ∷ [])
      ((mint_otp short_crypto 90 (λ i. i + 1) (take 16 zeros) service).0)
    ≤ 1
admissions-le_one_example =
    admissions-le_one short_crypto
      ((SessionMode.otp, some shown_code, none, 100)
        ∷ (SessionMode.otp, some shown_code, none, 101)
        ∷ [])
      ((mint_otp short_crypto 90 (λ i. i + 1) (take 16 zeros) service).0)
