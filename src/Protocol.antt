-- ===== src/Protocol.antt =====
-- The signalling messages of packages/protocol/src/message.rs. `Value` stands for serde_json's
-- JSON values, which the registry carries and does not look into. Numbers are plain, and their
-- widths are stated where a property needs them.
pub mod Scancode
use remotelink.Prelude.{ℕ, Option, none, some, String}

pub data Role : Type 0 where
  host viewer : Role

pub data SessionMode : Type 0 where
  otp unattended password : SessionMode

pub data OtpPrefilterStatus : Type 0 where
  not_run ok skipped : OtpPrefilterStatus

pub data RejectReason : Type 0 where
  busy auth policy : RejectReason

pub record HelloAuth : Type 0 where
  pub device_token : String

pub record Candidate : Type 0 where
  pub candidate : String
  pub sdp_mid : Option String
  pub sdp_m_line_index : Option ℕ
  pub username_fragment : Option String

pub data SessionState : Type 0 where
  pending active closed : SessionState

-- The texts of the server's errors: a constant, or a format with what it is filled with.
pub data ErrorText : Type 0 where
  plain : String → ErrorText
  session_exists : String → ErrorText
  host_not_connected : String → ErrorText
  expected_pending : SessionState → ErrorText
  expected_active : SessionState → ErrorText
  seq_below_next : ℕ → ℕ → ErrorText
  unsupported_type : Option String → ErrorText

pub data SignalMessage (Value : Type 0) : Type 0 where
  hello : Role → ℕ → HelloAuth → SignalMessage Value
  hello_ok : String → Value → SignalMessage Value
  session_intent : String → ℕ → String → SessionMode → Value → SignalMessage Value
  session_incoming : String → ℕ → Value → SessionMode → OtpPrefilterStatus → SignalMessage Value
  auth_challenge : String → ℕ → Value → SignalMessage Value
  auth_response : String → ℕ → Value → SignalMessage Value
  session_accept : String → ℕ → SignalMessage Value
  session_reject : String → ℕ → RejectReason → SignalMessage Value
  session_offer : String → ℕ → String → String → SignalMessage Value
  session_answer : String → ℕ → String → SignalMessage Value
  ice_candidate : String → ℕ → Candidate → SignalMessage Value
  media_restart : String → ℕ → SignalMessage Value
  renegotiate : String → ℕ → SignalMessage Value
  session_end : String → ℕ → String → SignalMessage Value
  stats : String → ℕ → Value → SignalMessage Value
  error : String → ErrorText → SignalMessage Value

module _ {Value : Type 0} where
  unfoldable pub session_id : SignalMessage Value → Option String
  session_id (hello _ _ _) = none
  session_id (hello_ok _ _) = none
  session_id (session_intent sid _ _ _ _) = some sid
  session_id (session_incoming sid _ _ _ _) = some sid
  session_id (auth_challenge sid _ _) = some sid
  session_id (auth_response sid _ _) = some sid
  session_id (session_accept sid _) = some sid
  session_id (session_reject sid _ _) = some sid
  session_id (session_offer sid _ _ _) = some sid
  session_id (session_answer sid _ _) = some sid
  session_id (ice_candidate sid _ _) = some sid
  session_id (media_restart sid _) = some sid
  session_id (renegotiate sid _) = some sid
  session_id (session_end sid _ _) = some sid
  session_id (stats sid _ _) = some sid
  session_id (error _ _) = none

  unfoldable pub signal_seq : SignalMessage Value → Option ℕ
  signal_seq (hello _ _ _) = none
  signal_seq (hello_ok _ _) = none
  signal_seq (session_intent _ seq _ _ _) = some seq
  signal_seq (session_incoming _ seq _ _ _) = some seq
  signal_seq (auth_challenge _ seq _) = some seq
  signal_seq (auth_response _ seq _) = some seq
  signal_seq (session_accept _ seq) = some seq
  signal_seq (session_reject _ seq _) = some seq
  signal_seq (session_offer _ seq _ _) = some seq
  signal_seq (session_answer _ seq _) = some seq
  signal_seq (ice_candidate _ seq _) = some seq
  signal_seq (media_restart _ seq) = some seq
  signal_seq (renegotiate _ seq) = some seq
  signal_seq (session_end _ seq _) = some seq
  signal_seq (stats _ seq _) = some seq
  signal_seq (error _ _) = none
