-- ===== src/Host/Policy/Authorize.antt =====
-- The policy's authorization of a session manager (authorize_session_mode_a and
-- authorize_session_mode_b in apps/host/src/policy.rs).
use remotelink.Prelude.{
  ℕ, ◌≡◌, Option, none, some, List, Result, ok, err, arith, Option-cases, inl, inr,
}
use remotelink.Protocol.{SessionMode}
use remotelink.Auth.Crypto.{Crypto}
use remotelink.Auth.Otp.{OtpRecord}
use remotelink.Auth.Identity.{ChallengeNonce}
use remotelink.Host.Session.{SessionManager, SessionError, authorize_session_a, authorize_session_b}
use remotelink.Host.Policy.{
  HostAuthService, ActiveOtpWindow, PolicyError, policy_allows_mode, consume_otp,
}

-- The errors: a text of this file's, one of the policy's, or the session's
pub data AuthorizeError : Type 0 where
  no_otp_window : AuthorizeError
  host_secret_missing : AuthorizeError
  refused : PolicyError → AuthorizeError
  session : SessionError → AuthorizeError

module _ (crypto : Crypto) {Event Injector : Type 0} where
  -- Once the session has checked the code against the window
  abbrev authorized_window :
      ActiveOtpWindow
      → SessionManager Event Injector × OtpRecord × Result (Unit {0}) SessionError
      → HostAuthService
      → HostAuthService × SessionManager Event Injector × Result (Unit {0}) AuthorizeError
  authorized_window w (m, r, ok _) s = (record s { active_otp = none }, m, ok tt)
  authorized_window w (m, r, err e) s =
      (record s { active_otp = some (record w { otp_record = r }) }, m, err (session e))

  unfoldable pub authorize_session_mode_a :
      List ℕ
      → ℕ
      → HostAuthService
      → SessionManager Event Injector
      → HostAuthService × SessionManager Event Injector × Result (Unit {0}) AuthorizeError
  unfolding authorize_session_a
  authorize_session_mode_a code now s m = elim s.active_otp [
    | none ↦ (s, m, err no_otp_window)
    | some w ↦
        authorized_window w (authorize_session_a crypto code s.otp_pepper now w.otp_record m) s
  ]

  -- `none` is the panic on a field of more than 32 bits' length.
  unfoldable pub authorize_session_mode_b :
      ChallengeNonce
      → List ℕ
      → List ℕ
      → List ℕ
      → HostAuthService
      → SessionManager Event Injector
      → Option (SessionManager Event Injector × Result (Unit {0}) AuthorizeError)
  unfolding policy_allows_mode
  authorize_session_mode_b nonce fp_host fp_viewer mac s m =
      elim (policy_allows_mode SessionMode.unattended s) [
        | err e ↦ some (m, err (refused e))
        | ok _ ↦ elim s.host_secret [
          | none ↦ some (m, err host_secret_missing)
          | some secret ↦ elim (authorize_session_b crypto secret nonce fp_host fp_viewer mac m) [
            | none ↦ none
            | some (m', result) ↦ some (m', elim result [ ok _ ↦ ok tt | err e ↦ err (session e) ])
          ]
        ]
      ]

  -- Authorizing a session with a code leaves the policy as consuming the code does.
  authorize_session_mode_a-consume_otp :
      (code : List ℕ) (now : ℕ) (s : HostAuthService) (m : SessionManager Event Injector)
      → (authorize_session_mode_a code now s m).0 ≡ (consume_otp crypto code now s).0
  unfolding authorize_session_mode_a authorize_session_a consume_otp
  authorize_session_mode_a-consume_otp code now s m = elim (Option-cases s.active_otp) [
    | inl gone ↦ ground (arith, gone)
    | inr (w, there) ↦ ground (arith, there)
  ]
