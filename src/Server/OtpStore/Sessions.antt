-- ===== src/Server/OtpStore/Sessions.antt =====
-- A code admits one session, which has to have guessed it.
use remotelink.Prelude.{
  ℕ, Bool, err, ◌+◌, ◌^◌, ◌≤◌, ◌<◌, ◌≡◌, ◌∙◌, refl, sym, true, false, ◌&&◌, Option, none, some,
  List, String, subst, ℕ_discrete, ok, ◌==◌, if◌then◌else◌, ite, arith, length,
}
use remotelink.Auth.Crypto.{Crypto}
use remotelink.Auth.Otp.{OtpHash, verify_otp}
use remotelink.Server.OtpStore.{
  StoredOtp, MemoryOtpStore, new_row, is_some, is_text, check_row, consume_for_session, store_hash,
  bound, OtpPrefilterResult,
}
use remotelink.Server.OtpStore.Row.{IsValid, row_of}
use remotelink.Server.OtpStore.Refinement.{
  bind_row, consume_row, Replaces, consume_for_session-Replaces, store_hash-Replaces,
}
use remotelink.Server.OtpStore.Histories.{
  store_hash-next_id, Call, Answer, Table, mint, bind, consume, checked, consumed, table_call,
  set_row,
}
use remotelink.Server.OtpStore.Runs.{mints_for, no_mint, run, total, run_along}

-- One, if the call is a consumption for the host that succeeds
unfoldable pub succeeded : ℕ → Call → Answer → ℕ
succeeded host (consume j session_id now) (consumed (ok _)) = if j == host then 1 else 0
succeeded host _ _ = 0

-- One, if the code can still be consumed
abbrev usable : Option StoredOtp → ℕ
usable none = 0
usable (some row) = if is_some row.consumed_at then 0 else 1

-- One, if the code is bound to the session
abbrev tag : String → Option StoredOtp → ℕ
tag sid none = 0
tag sid (some row) = if is_text sid row.session_intent_id then 1 else 0

module _ (crypto : Crypto) (pepper : List ℕ) where
  bind_row-usable :
      (code : List ℕ) (session_id : String) (now : ℕ) (o : Option StoredOtp)
      → usable ((bind_row crypto code pepper session_id now o).0) ≤ usable o
  unfolding bind_row check_row
  bind_row-usable code session_id now none = omega arith
  bind_row-usable code session_id now (some row) = ground arith

  consume_row-usable :
      (session_id : String) (now : ℕ) (o : Option StoredOtp)
      → let (o', result) = consume_row session_id now o in
        (usable o' ≤ usable o)
        × (result ≡ ok tt → (usable o ≡ 1) × (usable o' ≡ 0) × (tag session_id o ≡ 1))
  unfolding consume_row
  consume_row-usable session_id now none = (omega arith, λ e. absurd (ground arith))
  consume_row-usable session_id now (some row) =
      (ground arith, λ e. (ground arith, ground arith, ground arith))

  table_call-usable :
      (host : ℕ) (c : Call) (t : Table)
      → mints_for host c ≡ false
      → let (t', a) = table_call crypto pepper c t in
        succeeded host c a + usable (t'.rows host) ≤ usable (t.rows host)
  unfolding table_call set_row succeeded mints_for
  table_call-usable host (mint j hash expires_at now) t n = ground arith
  table_call-usable host (bind j code session_id now) t n =
      ground (arith, bind_row-usable code session_id now (t.rows j))
  table_call-usable host (consume j session_id now) t n =
      ground (arith, consume_row-usable session_id now (t.rows j))

  -- Each code is consumed once at most. Among calls that mint no code for the host, at most one
  -- consumption for it succeeds, whatever the sessions are. The store is valid, and the calls too few
  -- for the counter of the ids to wrap.
  pub consumed_once :
      (host : ℕ) (cs : List Call) (s : MemoryOtpStore)
      → IsValid s
      → s.next_id + length cs < 2 ^ 64
      → no_mint host cs ≡ true
      → total crypto pepper (succeeded host) cs s ≤ 1
  consumed_once host cs s v fits n =
      let (few, _) =
        run_along crypto pepper host (λ o o' k. k + usable o' ≤ usable o) (succeeded host)
          (λ o. omega arith) (λ o o₁ o₂ k m h i. omega arith) (table_call-usable host) cs s fits v
          n in
      omega (arith, few, usable_bound (row_of host s))
    where
      usable_bound : (o : Option StoredOtp) → usable o ≤ 1
      usable_bound none = omega arith
      usable_bound (some row) = ground arith

  abbrev is_right : List ℕ → OtpHash → Bool
  is_right code hash = elim (verify_otp crypto code pepper hash) [ ok _ ↦ true | err _ ↦ false ]

  -- One, if the call is a check for the host and the session that succeeds on a code of the hash
  unfoldable pub accepted : ℕ → String → OtpHash → Call → Answer → ℕ
  accepted host sid hash (bind j code session_id now) (checked bound) =
      if (j == host) && (is_text sid (some session_id) && is_right code hash) then 1 else 0
  accepted host sid hash _ _ = 0

  -- The change of a code with a hash: it keeps the hash, and a session that it gets bound to is
  -- accounted for.
  abbrev Bound : String → OtpHash → ℕ → Option StoredOtp → Option StoredOtp → Type 0
  Bound sid hash k o o' =
      ((row : StoredOtp) → o ≡ some row → row.hash ≡ hash)
      → ((row : StoredOtp) → o' ≡ some row → row.hash ≡ hash) × (tag sid o' ≤ tag sid o + k)

  bind_row-tag :
      (sid : String) (hash : OtpHash) (code : List ℕ) (session_id : String) (now : ℕ)
      (row : StoredOtp)
      → row.hash ≡ hash
      → let (o', result) = bind_row crypto code pepper session_id now (some row) in
        ((row' : StoredOtp) → o' ≡ some row' → row'.hash ≡ hash)
        × (tag sid o'
            ≤ tag sid (some row)
              + accepted 0 sid hash (bind 0 code session_id now) (checked result))
  unfolding bind_row check_row accepted
  bind_row-tag sid hash code session_id now row p =
      (λ row' q. ground (arith, p, q), ground (arith, p))

  consume_row-tag :
      (sid : String) (hash : OtpHash) (session_id : String) (now : ℕ) (row : StoredOtp)
      → row.hash ≡ hash
      → let o' = (consume_row session_id now (some row)).0 in
        ((row' : StoredOtp) → o' ≡ some row' → row'.hash ≡ hash) × (tag sid o' ≡ tag sid (some row))
  unfolding consume_row
  consume_row-tag sid hash session_id now row p =
      (λ row' q. ground (arith, p, q), ground (arith, p))

  bind_row-Bound :
      (sid : String) (hash : OtpHash) (code : List ℕ) (session_id : String) (now : ℕ)
      (o : Option StoredOtp)
      → let (o', result) = bind_row crypto code pepper session_id now o in
        Bound sid hash (accepted 0 sid hash (bind 0 code session_id now) (checked result)) o o'
  unfolding bind_row
  bind_row-Bound sid hash code session_id now none h = (h, omega arith)
  bind_row-Bound sid hash code session_id now (some row) h =
      bind_row-tag sid hash code session_id now row (h row refl)

  consume_row-Bound :
      (sid : String) (hash : OtpHash) (session_id : String) (now : ℕ) (o : Option StoredOtp)
      → Bound sid hash 0 o ((consume_row session_id now o).0)
  unfolding consume_row
  consume_row-Bound sid hash session_id now none h = (h, omega arith)
  consume_row-Bound sid hash session_id now (some row) h =
      let (kept, same) = consume_row-tag sid hash session_id now row (h row refl) in
      (kept, omega (arith, same))

  accepted_self :
      (host j : ℕ) (sid : String) (hash : OtpHash) (code : List ℕ) (session_id : String) (now : ℕ)
      (result : OtpPrefilterResult)
      → j ≡ host
      → accepted 0 sid hash (bind 0 code session_id now) (checked result)
        ≤ accepted host sid hash (bind j code session_id now) (checked result)
  unfolding accepted
  accepted_self host j sid hash code session_id now result p = ground (arith, p)

  set_row-Bound :
      (sid : String) (hash : OtpHash) (j host k k' : ℕ) (rows : ℕ → Option StoredOtp)
      (o' : Option StoredOtp)
      → Bound sid hash k (rows j) o'
      → (j ≡ host → k ≤ k')
      → Bound sid hash k' (rows host) (ite (ℕ_discrete j host) o' (rows host))
  set_row-Bound sid hash j host k k' rows o' f l =
      elim (ℕ_discrete j host) as (λ d. Bound sid hash k' (rows host) (ite d o' (rows host))) [
        | yes p ↦
            subst (λ x. Bound sid hash k' (rows x) o') p
              (λ h. let (kept, few) = f h in (kept, omega (arith, few, l p)))
        | no q ↦ λ h. (h, omega arith)
      ]

  table_call-tag :
      (host : ℕ) (sid : String) (hash : OtpHash) (c : Call) (t : Table)
      → mints_for host c ≡ false
      → let (t', a) = table_call crypto pepper c t in
        Bound sid hash (accepted host sid hash c a) (t.rows host) (t'.rows host)
  unfolding table_call set_row accepted mints_for
  table_call-tag host sid hash (mint j h expires_at now) t n =
      subst (λ o. Bound sid hash 0 (t.rows host) o) (sym (apart _ (ℕ_discrete j host)))
        (λ kept. (kept, omega arith))
    where
      apart : (o : Option StoredOtp) (d : Dec (j ≡ host)) → ite d o (t.rows host) ≡ t.rows host
      apart o (yes p) = absurd (ground (arith, p, n))
      apart o (no q) = refl
  table_call-tag host sid hash (bind j code session_id now) t n =
      set_row-Bound sid hash j host _ _ t.rows _
        (bind_row-Bound sid hash code session_id now (t.rows j))
        (accepted_self host j sid hash code session_id now _)
  table_call-tag host sid hash (consume j session_id now) t n =
      set_row-Bound sid hash j host 0 _ t.rows _
        (consume_row-Bound sid hash session_id now (t.rows j)) (λ p. omega arith)

  -- A session that consumes a code has guessed it: between the minting of a host's code and its
  -- consumption for a session lies a check for that host and that session that succeeded, with a
  -- code that the minted hash verifies. The store is valid before the code is minted, no other is
  -- minted for the host in between, and the calls are too few for the counter of the ids to wrap.
  pub consumed_was_bound :
      (host : ℕ) (hash : OtpHash) (expires_at minted_at : ℕ) (sid : String) (now : ℕ)
      (cs : List Call) (s : MemoryOtpStore)
      → let s₁ = (store_hash host hash expires_at minted_at s).0 in
        IsValid s
        → s.next_id + length cs + 1 < 2 ^ 64
        → no_mint host cs ≡ true
        → (consume_for_session host sid now (run crypto pepper cs s₁)).1 ≡ ok tt
        → 1 ≤ total crypto pepper (accepted host sid hash) cs s₁
  unfolding Replaces
  consumed_was_bound host hash expires_at minted_at sid now cs s v fits n e =
      let (_, replaced) = store_hash-Replaces host hash expires_at minted_at s (omega arith) v in
      let (valid, rows) = replaced in
      let s₁ = (store_hash host hash expires_at minted_at s).0 in
      let (bound_by, valid') =
        run_along crypto pepper host (λ o o' k. Bound sid hash k o o') (accepted host sid hash)
          (λ o h. (h, omega arith))
          (λ o o₁ o₂ k m f g h.
            let (h₁, l) = f h in let (h₂, l') = g h₁ in (h₂, omega (arith, l, l')))
          (table_call-tag host sid hash) cs s₁
          (omega (arith, store_hash-next_id host hash expires_at minted_at s (omega arith))) valid
          n in
      let (same, _) = consume_for_session-Replaces host sid now (run crypto pepper cs s₁) valid' in
      let (_, _, was) =
        (consume_row-usable sid now (row_of host (run crypto pepper cs s₁))).1 (sym same ∙ e) in
      let (unbound, kept) = fresh _ _ _ (rows host) in
      omega (arith, was, (bound_by kept).1, unbound)
    where
      fresh :
          (r old : Option StoredOtp) (id : ℕ)
          → r ≡ ite (ℕ_discrete host host) (some (new_row id host hash expires_at minted_at)) old
          → (tag sid r ≡ 0) × ((row : StoredOtp) → r ≡ some row → row.hash ≡ hash)
      fresh r old id p = (ground (arith, p), λ row q. ground (arith, p, q))
