-- ===== src/Auth/Transcript.antt =====
-- The transcript of the unattended-access challenge (packages/auth/src/challenge.rs). HMAC-SHA256
-- is a library's, and a parameter here. Bytes are numbers below 256.
use remotelink.Prelude.{
  ℕ, ◌/◌, ◌%◌, ◌^◌, ◌<◌, ◌≡◌, refl, not, Option, none, some, List, [], ◌∷◌, ◌++◌, Result, ok, err,
  ltb, ◌⊎◌, ◌≢◌, inl, inr, Option-cases, Bool-cases, ◌==◌, if◌then◌else◌, arith, length, sym, ◌∙◌,
}
use mathlib.Core.List.{append_assoc, append-nil}
use remotelink.Auth.Crypto.{Crypto, bytes_eq, bytes_eq_iff}

-- `u32::to_be_bytes`
unfoldable pub be_bytes : ℕ → List ℕ
be_bytes n = (n / 2 ^ 24 % 256) ∷ (n / 2 ^ 16 % 256) ∷ (n / 2 ^ 8 % 256) ∷ (n % 256) ∷ []

-- A field behind its length. The `expect` panics on a length of more than 32 bits: `none`.
unfoldable pub append_lp : List ℕ → List ℕ → Option (List ℕ)
unfolding be_bytes
append_lp out field =
    if ltb (length field) (2 ^ 32) then some (out ++ (be_bytes (length field) ++ field)) else none

pub record ChallengeTranscript : Type 0 where
  pub session_id : List ℕ
  pub nonce : List ℕ
  pub fingerprint_host : List ℕ
  pub fingerprint_viewer : List ℕ

-- "remotelink-mode-b-mac-v1"
unfoldable pub mac_domain : List ℕ
mac_domain =
    b'r' ∷ b'e' ∷ b'm' ∷ b'o' ∷ b't' ∷ b'e' ∷ b'l' ∷ b'i' ∷ b'n' ∷ b'k' ∷ b'-' ∷ b'm' ∷ b'o' ∷ b'd'
    ∷ b'e' ∷ b'-' ∷ b'b' ∷ b'-' ∷ b'm' ∷ b'a' ∷ b'c' ∷ b'-' ∷ b'v' ∷ b'1' ∷ []

infixl 5 ◌>>=◌
abbrev ◌>>=◌ : {A B : Type 0} → Option A → (A → Option B) → Option B
none >>= f = none
some a >>= f = f a

-- The four fields, behind what has been written
unfoldable pub append_fields : List ℕ → ChallengeTranscript → Option (List ℕ)
append_fields out t = do
  out ← append_lp out t.session_id
  out ← append_lp out t.nonce
  out ← append_lp out t.fingerprint_host
  append_lp out t.fingerprint_viewer

unfoldable pub encode : ChallengeTranscript → Option (List ℕ)
unfolding append_fields
encode t = append_fields mac_domain t

-- What is written for a field, before the rest.
unfoldable pub framed : List ℕ → List ℕ → List ℕ
framed field rest = be_bytes (length field) ++ (field ++ rest)

be_bytes_inj : (m n : ℕ) → m < 2 ^ 32 → n < 2 ^ 32 → be_bytes m ≡ be_bytes n → m ≡ n
unfolding be_bytes
be_bytes_inj m n h k e = ground arith

split_same :
    (xs ys ms ns : List ℕ) → length xs ≡ length ys → xs ++ ms ≡ ys ++ ns → (xs ≡ ys) × (ms ≡ ns)
split_same [] [] ms ns h e = (refl, e)
split_same [] (y ∷ ys) ms ns h e = absurd (omega arith)
split_same (x ∷ xs) [] ms ns h e = absurd (omega arith)
split_same (x ∷ xs) (y ∷ ys) ms ns h e = ground (arith, split_same xs ys ms ns)

-- A framed field and what follows it can be told apart.
framed_inj :
    (xs ys ms ns : List ℕ)
    → length xs < 2 ^ 32
    → length ys < 2 ^ 32
    → framed xs ms ≡ framed ys ns
    → (xs ≡ ys) × (ms ≡ ns)
unfolding framed
framed_inj xs ys ms ns h k e =
    let (lengths, rest) =
      split_same (be_bytes (length xs)) (be_bytes (length ys)) (xs ++ ms) (ys ++ ns)
        (unfold be_bytes in refl) e in
    split_same xs ys ms ns (be_bytes_inj (length xs) (length ys) h k lengths) rest

append_lp-some :
    (out field r : List ℕ)
    → append_lp out field ≡ some r
    → (length field < 2 ^ 32) × (r ≡ out ++ (be_bytes (length field) ++ field))
unfolding append_lp
append_lp-some out field r e = ground arith

-- The four fields, each framed.
pub record Fits (t : ChallengeTranscript) : Type 0 where
  pub session_id_fits : length t.session_id < 2 ^ 32
  pub nonce_fits : length t.nonce < 2 ^ 32
  pub host_fits : length t.fingerprint_host < 2 ^ 32
  pub viewer_fits : length t.fingerprint_viewer < 2 ^ 32

unfoldable pub body : ChallengeTranscript → List ℕ
body t =
    framed t.session_id
      (framed t.nonce (framed t.fingerprint_host (framed t.fingerprint_viewer [])))

bind_some :
    {A B : Type 0} (m : Option A) (f : A → Option B) (b : B)
    → (m >>= f) ≡ some b
    → (a : A) × (m ≡ some a) × (f a ≡ some b)
bind_some none f b e = absurd (cc)
bind_some (some a) f b e = (a, refl, e)

pub append_fields-some :
    (domain : List ℕ) (t : ChallengeTranscript) (out : List ℕ)
    → append_fields domain t ≡ some out
    → Fits t × (out ≡ domain ++ body t)
unfolding append_fields body framed
append_fields-some domain t out e =
    let (o₁, e₁, r₁) = bind_some (append_lp domain t.session_id) _ out e in
    let (o₂, e₂, r₂) = bind_some (append_lp o₁ t.nonce) _ out r₁ in
    let (o₃, e₃, r₃) = bind_some (append_lp o₂ t.fingerprint_host) _ out r₂ in
    let (f₁, p₁) = append_lp-some domain t.session_id o₁ e₁ in
    let (f₂, p₂) = append_lp-some o₁ t.nonce o₂ e₂ in
    let (f₃, p₃) = append_lp-some o₂ t.fingerprint_host o₃ e₃ in
    let (f₄, p₄) = append_lp-some o₃ t.fingerprint_viewer out r₃ in
    (
      record { session_id_fits = f₁; nonce_fits = f₂; host_fits = f₃; viewer_fits = f₄ },
      simp (p₄, p₃, p₂, p₁, append_assoc, append-nil),
    )

-- Behind one domain, the fields can be told apart.
pub append_fields_inj :
    (domain : List ℕ) (t t' : ChallengeTranscript) (out : List ℕ)
    → append_fields domain t ≡ some out
    → append_fields domain t' ≡ some out
    → t ≡ t'
unfolding body
append_fields_inj domain t t' out e e' =
    let (f, p) = append_fields-some domain t out e in
    let (f', p') = append_fields-some domain t' out e' in
    let (_, b) = split_same domain domain (body t) (body t') refl (sym p ∙ p') in
    let (same₁, b₁) = framed_inj _ _ _ _ f.session_id_fits f'.session_id_fits b in
    let (same₂, b₂) = framed_inj _ _ _ _ f.nonce_fits f'.nonce_fits b₁ in
    let (same₃, b₃) = framed_inj _ _ _ _ f.host_fits f'.host_fits b₂ in
    let (same₄, _) = framed_inj _ _ _ _ f.viewer_fits f'.viewer_fits b₃ in
    ground (arith, same₁, same₂, same₃, same₄)

-- The transcript determines its fields: two transcripts with one encoding have the same session,
-- the same nonce and the same two fingerprints.
pub encode_inj :
    (t t' : ChallengeTranscript) (out : List ℕ)
    → encode t ≡ some out
    → encode t' ≡ some out
    → t ≡ t'
unfolding encode
encode_inj t t' out e e' = append_fields_inj mac_domain t t' out e e'

pub data MacError : Type 0 where
  challenge_mac_mismatch : MacError

module _ (crypto : Crypto) where
  unfoldable pub compute_challenge_mac : List ℕ → ChallengeTranscript → Option (List ℕ)
  compute_challenge_mac secret t = do message ← encode t; some (crypto.hmac secret message)

  -- `none` is the panic of `encode`.
  unfoldable pub verify_challenge_mac :
      List ℕ → ChallengeTranscript → List ℕ → Option (Result (Unit {0}) MacError)
  unfolding compute_challenge_mac
  verify_challenge_mac secret t presented =
      if not (length presented == 32) then some (err challenge_mac_mismatch) else do
        expected ← compute_challenge_mac secret t
        some (if crypto.ct_eq expected presented then ok tt else err challenge_mac_mismatch)

  pub verified :
      (secret : List ℕ) (t : ChallengeTranscript) (mac : List ℕ)
      → verify_challenge_mac secret t mac ≡ some (ok tt)
      → (message : List ℕ) × (encode t ≡ some message) × (crypto.hmac secret message ≡ mac)
  unfolding verify_challenge_mac
  verified secret t mac e = elim (Option-cases (encode t)) [
    | inl panics ↦ absurd (ground (arith, e, panics))
    | inr (message, wrote) ↦ (
      message,
      wrote,
      ground (arith, e, wrote, crypto.ct_eq_iff (crypto.hmac secret message) mac),
    )
  ]

  -- A response that is accepted for one challenge is accepted for another only if that has the
  -- same session, nonce and fingerprints, or else two different messages were found that have one
  -- code under the secret.
  pub verify_binds :
      (secret : List ℕ) (t t' : ChallengeTranscript) (mac : List ℕ)
      → verify_challenge_mac secret t mac ≡ some (ok tt)
      → verify_challenge_mac secret t' mac ≡ some (ok tt)
      → (t ≡ t')
        ⊎ ((m : List ℕ) × (m' : List ℕ) × (m ≢ m') × (crypto.hmac secret m ≡ crypto.hmac secret m'))
  verify_binds secret t t' mac e e' =
      let (m, wrote, code) = verified secret t mac e in
      let (m', wrote', code') = verified secret t' mac e' in
      elim (Bool-cases (bytes_eq m m')) [
        | inl same ↦ inl (encode_inj t t' m wrote (ground (arith, wrote', same, bytes_eq_iff m m')))
        | inr differ ↦
            inr (m, m', (λ p. ground (arith, differ, p, bytes_eq_iff m m')), code ∙ sym code')
      ]
