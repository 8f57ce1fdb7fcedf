-- ===== src/Server/OtpStore/Guesses.antt =====
-- A code admits few wrong guesses.
use remotelink.Prelude.{
  ℕ, ◌+◌, ◌^◌, ◌≤◌, ◌<◌, ◌≡◌, ◌≢◌, ◌∙◌, refl, sym, min, true, false, Option, none, some, List,
  String, ℕ_discrete, ◌==◌, if◌then◌else◌, arith, length,
}
use remotelink.Auth.Crypto.{Crypto}
use remotelink.Server.OtpStore.{StoredOtp, MemoryOtpStore, check_row, prefilter_bind, bound, reject}
use remotelink.Server.OtpStore.Row.{IsValid, row_of}
use remotelink.Server.OtpStore.Refinement.{bind_row, consume_row, prefilter_bind-Replaces}
use remotelink.Server.OtpStore.Histories.{
  Call, Answer, Table, mint, bind, consume, checked, table_call, set_row,
}
use remotelink.Server.OtpStore.Runs.{mints_for, no_mint, run, total, run_along}

-- The attempts that a code has used up, all of them if there is none
abbrev spent : Option StoredOtp → ℕ
spent none = 5
spent (some row) = row.attempts

-- One, if the call is a check for the host that is rejected
unfoldable pub rejected : ℕ → Call → Answer → ℕ
rejected host (bind j code session_id now) (checked reject) = if j == host then 1 else 0
rejected host _ _ = 0

module _ (crypto : Crypto) (pepper : List ℕ) where
  bind_row-spent :
      (code : List ℕ) (session_id : String) (now : ℕ) (o : Option StoredOtp)
      → let (o', result) = bind_row crypto code pepper session_id now o in
        (min (spent o) 5 ≤ spent o')
        × (result ≡ reject → min (spent o + 1) 5 ≤ spent o')
        × (result ≡ bound → spent o < 5)
  unfolding bind_row check_row
  bind_row-spent code session_id now none =
      (omega arith, (λ e. omega arith), λ e. absurd (ground arith))
  bind_row-spent code session_id now (some row) =
      (ground arith, (λ e. ground arith), λ e. ground arith)

  consume_row-spent :
      (session_id : String) (now : ℕ) (o : Option StoredOtp)
      → spent ((consume_row session_id now o).0) ≡ spent o
  unfolding consume_row
  consume_row-spent session_id now none = refl
  consume_row-spent session_id now (some row) = ground arith

  table_call-spent :
      (host : ℕ) (c : Call) (t : Table)
      → mints_for host c ≡ false
      → let (t', a) = table_call crypto pepper c t in
        min (spent (t.rows host) + rejected host c a) 5 ≤ spent (t'.rows host)
  unfolding table_call set_row rejected mints_for
  table_call-spent host (mint j hash expires_at now) t n = ground arith
  table_call-spent host (bind j code session_id now) t n = elim (ℕ_discrete j host) [
    | yes p ↦ ground (arith, p, bind_row-spent code session_id now (t.rows j))
    | no q ↦ ground (arith, q)
  ]
  table_call-spent host (consume j session_id now) t n =
      ground (arith, consume_row-spent session_id now (t.rows j))

  run-spent :
      (host : ℕ) (cs : List Call) (s : MemoryOtpStore)
      → s.next_id + length cs < 2 ^ 64
      → IsValid s
      → no_mint host cs ≡ true
      → (min (spent (row_of host s) + total crypto pepper (rejected host) cs s) 5
          ≤ spent (row_of host (run crypto pepper cs s)))
        × IsValid (run crypto pepper cs s)
  run-spent host =
      run_along crypto pepper host (λ o o' n. min (spent o + n) 5 ≤ spent o') (rejected host)
        (λ o. omega arith) (λ o o₁ o₂ m n h k. omega arith) (table_call-spent host)

  -- Five wrong guesses are the end of a code. Once five checks for a host have been rejected, no check
  -- for it succeeds, with the right code either, until a code is minted for the host again; calls
  -- for other hosts, checks that succeed and consumptions in between change nothing about that. The
  -- store is valid, and the calls too few for the counter of the ids to wrap.
  pub five_guesses :
      (host : ℕ) (cs : List Call) (s : MemoryOtpStore) (code : List ℕ) (session_id : String)
      (now : ℕ)
      → IsValid s
      → s.next_id + length cs < 2 ^ 64
      → no_mint host cs ≡ true
      → 5 ≤ total crypto pepper (rejected host) cs s
      → (prefilter_bind crypto host code pepper session_id now (run crypto pepper cs s)).1 ≢ bound
  five_guesses host cs s code session_id now v fits n five e =
      let (gone, valid) = run-spent host cs s fits v n in
      let (same, _) =
        prefilter_bind-Replaces crypto host code pepper session_id now (run crypto pepper cs s)
          valid in
      let (_, _, few) = bind_row-spent code session_id now (row_of host (run crypto pepper cs s)) in
      absurd (omega (arith, few (sym same ∙ e)))
