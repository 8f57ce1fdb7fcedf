-- ===== src/Auth/Identity/Binding.antt =====
-- What binds an identity: who can answer a challenge, and that an answer serves for nothing else.
use remotelink.Prelude.{
  ℕ, ◌≡◌, ◌≢◌, ◌↔◌, ◌⊎◌, inl, inr, sym, ◌∙◌, true, some, List, Result, ok, length, arith,
  Option-cases, Bool-cases,
}
use remotelink.Auth.Crypto.{Crypto, bytes_eq, bytes_eq_iff}
use remotelink.Auth.Transcript.{
  ChallengeTranscript, append_fields-some, append_fields_inj, mac_domain, encode, verified,
}
use remotelink.Auth.Identity.{
  HostSecret, ChallengeNonce, SessionBindKey, AuthError, IdentityBindState, DcIdentityChallenge,
  DcIdentityResponse, dc_bind_domain, encode_dc_bind_message, transcript, mark_identity_bound,
  from_mode_b_secret, compute_dc_bind_mac, verify_dc_bind_mac, respond_dc_challenge,
  complete_dc_bind, verify_response,
}

-- Two different messages that have one code under the key.
unfoldable pub Collision : Crypto → List ℕ → Type 0
Collision crypto key =
    (m : List ℕ) × (m' : List ℕ) × (m ≢ m') × (crypto.hmac key m ≡ crypto.hmac key m')

-- No message is encoded behind both domains.
domains_differ :
    (t t' : ChallengeTranscript) (m m' : List ℕ)
    → encode t ≡ some m
    → encode_dc_bind_message t' ≡ some m'
    → m ≢ m'
unfolding encode encode_dc_bind_message mac_domain dc_bind_domain
domains_differ t t' m m' e e' p =
    let (_, q) = append_fields-some mac_domain t m e in
    let (_, q') = append_fields-some dc_bind_domain t' m' e' in ground (arith, p, q, q')

module _ (crypto : Crypto) where
  bound :
      (key : SessionBindKey) (t : ChallengeTranscript) (mac : List ℕ)
      → verify_dc_bind_mac crypto key t mac ≡ some (ok tt)
      → (message : List ℕ) × (encode_dc_bind_message t ≡ some message)
        × (crypto.hmac key.bytes message ≡ mac)
  unfolding verify_dc_bind_mac compute_dc_bind_mac
  bound key t mac e = elim (Option-cases (encode_dc_bind_message t)) [
    | inl panics ↦ absurd (ground (arith, e, panics))
    | inr (message, wrote) ↦ (
      message,
      wrote,
      ground (arith, e, wrote, crypto.ct_eq_iff (crypto.hmac key.bytes message) mac),
    )
  ]

  -- An answer to the unattended-access challenge is never an answer to an identity challenge as
  -- well, though both use the host's secret as their key, unless two different messages were found
  -- that have one code under it.
  pub challenge_is_no_bind :
      (secret : HostSecret) (nonce : ChallengeNonce) (session_id fp_host fp_viewer mac : List ℕ)
      (t : ChallengeTranscript)
      → verify_response crypto secret nonce session_id fp_host fp_viewer mac ≡ some (ok tt)
      → verify_dc_bind_mac crypto (from_mode_b_secret crypto secret) t mac ≡ some (ok tt)
      → Collision crypto secret.bytes
  unfolding Collision verify_response from_mode_b_secret
  challenge_is_no_bind secret nonce session_id fp_host fp_viewer mac t e e' =
      let tr = transcript session_id nonce.bytes fp_host fp_viewer in
      let (m, wrote, code) = verified crypto secret.bytes tr mac e in
      let (m', wrote', code') = bound (from_mode_b_secret crypto secret) t mac e' in
      (m, m', domains_differ tr t m m' wrote wrote', code ∙ sym code')

  -- An answer that binds the identity for one challenge binds it for another only if the session,
  -- the nonce and both fingerprints are the same, or else two different messages were found that
  -- have one code under the key.
  pub verify_dc_bind_mac-binds :
      (key : SessionBindKey) (t t' : ChallengeTranscript) (mac : List ℕ)
      → verify_dc_bind_mac crypto key t mac ≡ some (ok tt)
      → verify_dc_bind_mac crypto key t' mac ≡ some (ok tt)
      → (t ≡ t') ⊎ Collision crypto key.bytes
  unfolding Collision
  verify_dc_bind_mac-binds key t t' mac e e' =
      let (m, wrote, code) = bound key t mac e in
      let (m', wrote', code') = bound key t' mac e' in
      elim (Bool-cases (bytes_eq m m')) [
        | inl same ↦ inl (
            unfold encode_dc_bind_message in
            append_fields_inj dc_bind_domain t t' m wrote
              (ground (arith, wrote', same, bytes_eq_iff m m')))
        | inr differ ↦
            inr (m, m', (λ p. ground (arith, differ, p, bytes_eq_iff m m')), code ∙ sym code')
      ]

  -- The viewer's answer to the host's challenge is accepted and binds the identity, which changes
  -- that flag and nothing else, if both have the key, the session's id and the two fingerprints, and
  -- codes have 32 bytes; the viewer's call is assumed not to panic on a field of more than 32 bits'
  -- length.
  pub complete_dc_bind-respond_dc_challenge :
      (key : SessionBindKey) (c : DcIdentityChallenge) (response : DcIdentityResponse)
      (fp_host fp_viewer : List ℕ) (s : IdentityBindState)
      → ((k m : List ℕ) → length (crypto.hmac k m) ≡ 32)
      → respond_dc_challenge crypto key s.session_id c fp_host fp_viewer ≡ some response
      → complete_dc_bind crypto key c response fp_host fp_viewer s
        ≡ some (record s { identity_bound = true }, ok tt)
  unfolding respond_dc_challenge complete_dc_bind verify_dc_bind_mac compute_dc_bind_mac
      mark_identity_bound
  complete_dc_bind-respond_dc_challenge key c response fp_host fp_viewer s size e =
      elim (Option-cases
        (encode_dc_bind_message (transcript s.session_id c.nonce fp_host fp_viewer))) [
          | inl panics ↦ absurd (ground (arith, e, panics))
          | inr (message, wrote) ↦
              let code = crypto.hmac key.bytes message in
              ground (arith, e, wrote, size key.bytes message, crypto.ct_eq_iff code code)
        ]

  -- A call that does not panic binds the identity exactly when the answer is the code of the
  -- session's fields under the key, in 32 bytes; otherwise it is refused and nothing changes.
  pub complete_dc_bind_iff :
      (key : SessionBindKey) (c : DcIdentityChallenge) (response : DcIdentityResponse)
      (fp_host fp_viewer message : List ℕ) (s : IdentityBindState)
      → encode_dc_bind_message (transcript s.session_id c.nonce fp_host fp_viewer) ≡ some message
      → (after : IdentityBindState) (result : Result (Unit {0}) AuthError)
      → complete_dc_bind crypto key c response fp_host fp_viewer s ≡ some (after, result)
      → ((result ≡ ok tt)
          ↔ ((length response.mac ≡ 32) × (crypto.hmac key.bytes message ≡ response.mac)))
        × (result ≡ ok tt → after ≡ mark_identity_bound s)
        × (result ≢ ok tt → after ≡ s)
  unfolding complete_dc_bind verify_dc_bind_mac compute_dc_bind_mac
  complete_dc_bind_iff key c response fp_host fp_viewer message s wrote after result e =
      let eq = crypto.ct_eq_iff (crypto.hmac key.bytes message) response.mac in
      (
        ((λ p. ground (arith, e, wrote, eq, p)), λ p. ground (arith, e, wrote, eq, p)),
        (λ p. ground (arith, e, wrote, eq, p)),
        λ n. ground (arith, e, wrote, eq, n),
      )
