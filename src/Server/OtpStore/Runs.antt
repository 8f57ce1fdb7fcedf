-- ===== src/Server/OtpStore/Runs.antt =====
-- Series of calls without a mint for one host, and what they keep of that host's code.
use remotelink.Prelude.{
  ℕ, ◌+◌, ◌^◌, ◌<◌, ◌≡◌, ap, Bool, true, false, not, ◌&&◌, Option, List, [], ◌∷◌, ◌==◌, arith,
  length, subst,
}
use remotelink.Auth.Crypto.{Crypto}
use remotelink.Server.OtpStore.{StoredOtp, MemoryOtpStore}
use remotelink.Server.OtpStore.Row.{IsValid, row_of}
use remotelink.Server.OtpStore.Histories.{
  Call, Answer, Table, mint, call, table_call, view, table_call-view,
}

-- No code is minted for the host among the calls.
unfoldable pub mints_for : ℕ → Call → Bool
mints_for host (mint j hash expires_at now) = j == host
mints_for host c = false

unfoldable pub no_mint : ℕ → List Call → Bool
unfolding mints_for
no_mint host [] = true
no_mint host (c ∷ cs) = not (mints_for host c) && no_mint host cs

module _ (crypto : Crypto) (pepper : List ℕ) where
  unfoldable pub run : List Call → MemoryOtpStore → MemoryOtpStore
  run [] s = s
  run (c ∷ cs) s = run cs ((call crypto pepper c s).0)

  -- A count over the calls and their answers
  unfoldable pub total : (Call → Answer → ℕ) → List Call → MemoryOtpStore → ℕ
  total count [] s = 0
  total count (c ∷ cs) s = let (s', a) = call crypto pepper c s in count c a + total count cs s'

  -- What one call does to the code of a host
  pub call-row_of :
      (host : ℕ) (c : Call) (s : MemoryOtpStore)
      → s.next_id + 1 < 2 ^ 64
      → IsValid s
      → let (t', a) = table_call crypto pepper c (view s) in
        (t'.rows host ≡ row_of host ((call crypto pepper c s).0)) × (a ≡ (call crypto pepper c s).1)
  unfolding view
  call-row_of host c s fits v =
      let (same, _, _) = table_call-view crypto pepper c s fits v in
      (ap (λ x. (x.0).rows host) same, ap (λ x. x.1) same)

  -- What each call keeps of a code, along a series of calls without a mint
  pub run_along :
      (host : ℕ) (P : Option StoredOtp → Option StoredOtp → ℕ → Type 0) (count : Call → Answer → ℕ)
      → ((o : Option StoredOtp) → P o o 0)
      → ((o o₁ o₂ : Option StoredOtp) (m n : ℕ) → P o o₁ m → P o₁ o₂ n → P o o₂ (m + n))
      → ((c : Call) (t : Table)
          → mints_for host c ≡ false
          → let (t', a) = table_call crypto pepper c t in
            P (t.rows host) (t'.rows host) (count c a))
      → (cs : List Call) (s : MemoryOtpStore) → s.next_id + length cs < 2 ^ 64
      → IsValid s
      → no_mint host cs ≡ true
      → P (row_of host s) (row_of host (run cs s)) (total count cs s) × IsValid (run cs s)
  unfolding run total no_mint view
  run_along host P count unit step one [] s fits v n = (unit (row_of host s), v)
  run_along host P count unit step one (c ∷ cs) s fits v n =
      let (_, valid, low) = table_call-view crypto pepper c s (omega arith) v in
      let (row, a) = call-row_of host c s (omega arith) v in
      let s' = (call crypto pepper c s).0 in
      let (more, valid') =
        run_along host P count unit step one cs s' (omega (arith, low)) valid (ground arith) in
      (
        step (row_of host s) (row_of host s') _ _ _
            (subst (λ r. P (row_of host s) r (count c ((call crypto pepper c s).1))) row
              (subst
                (λ b.
                  P (row_of host s) (((table_call crypto pepper c (view s)).0).rows host)
                    (count c b))
                a (one c (view s) (ground arith))))
            more,
        valid',
      )
