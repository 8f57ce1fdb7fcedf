-- ===== src/Server/OtpStore/Histories.antt =====
-- Series of calls of the store: they are answered as those of a table with one code for each host.
use remotelink.Prelude.{
  ℕ, ◌+◌, ◌^◌, ◌≤◌, ◌<◌, ◌≡◌, ◌∙◌, refl, sym, ap, Option, none, some, List, [], ◌∷◌, String,
  ℕ_discrete, Result, ite, arith, length, Option-cases, inl, inr,
}
use std.Path.{fun_ext}
use remotelink.Map.{lookup}
use remotelink.Auth.Crypto.{Crypto}
use remotelink.Auth.Otp.{OtpHash}
use remotelink.Server.OtpStore.{
  StoredOtp, MemoryOtpStore, OtpPrefilterResult, OtpStoreError, new, new_row, or_empty, store_hash,
  prefilter_bind, consume_for_session, bind_loop, consume_loop, reversed,
}
use remotelink.Server.OtpStore.Row.{IsValid, row_at, row_of}
use remotelink.Server.OtpStore.Refinement.{
  bind_row, consume_row, Replaces, prefilter_bind-Replaces, consume_for_session-Replaces,
  store_hash-Replaces,
}

-- A call of the store. Each names the host first.
pub data Call : Type 0 where
  mint : ℕ → OtpHash → ℕ → ℕ → Call
  bind : ℕ → List ℕ → String → ℕ → Call
  consume : ℕ → String → ℕ → Call

pub data Answer : Type 0 where
  minted : StoredOtp → Answer
  checked : OtpPrefilterResult → Answer
  consumed : Result (Unit {0}) OtpStoreError → Answer

-- A table with one code for each host
pub record Table : Type 0 where
  pub next_id : ℕ
  pub rows : ℕ → Option StoredOtp

unfoldable pub set_row : ℕ → Option StoredOtp → Table → Table
set_row host o t = record t { rows = λ j. ite (ℕ_discrete host j) o (t.rows j) }

module _ (crypto : Crypto) (pepper : List ℕ) where
  unfoldable pub call : Call → MemoryOtpStore → MemoryOtpStore × Answer
  call (mint host hash expires_at now) s =
      let (s', row) = store_hash host hash expires_at now s in (s', minted row)
  call (bind host code session_id now) s =
      let (s', result) = prefilter_bind crypto host code pepper session_id now s in
      (s', checked result)
  call (consume host session_id now) s =
      let (s', result) = consume_for_session host session_id now s in (s', consumed result)

  unfoldable pub table_call : Call → Table → Table × Answer
  table_call (mint host hash expires_at now) t =
      let row = new_row (t.next_id + 1) host hash expires_at now in
      (record (set_row host (some row) t) { next_id = t.next_id + 1 }, minted row)
  table_call (bind host code session_id now) t =
      let (o, result) = bind_row crypto code pepper session_id now (t.rows host) in
      (set_row host o t, checked result)
  table_call (consume host session_id now) t =
      let (o, result) = consume_row session_id now (t.rows host) in
      (set_row host o t, consumed result)

  unfoldable pub answers : List Call → MemoryOtpStore → List Answer
  answers [] s = []
  answers (c ∷ cs) s = let (s', a) = call c s in a ∷ answers cs s'

  unfoldable pub table_answers : List Call → Table → List Answer
  table_answers [] t = []
  table_answers (c ∷ cs) t = let (t', a) = table_call c t in a ∷ table_answers cs t'

-- The store as a table
unfoldable pub view : MemoryOtpStore → Table
view s = record { next_id = s.next_id; rows = λ j. row_of j s }

view-minted :
    (host n : ℕ) (o : Option StoredOtp) (s s' : MemoryOtpStore)
    → n ≡ s'.next_id
    → Replaces host o s s'
    → record (set_row host o (view s)) { next_id = n } ≡ view s'
unfolding view set_row Replaces
view-minted host n o s s' same h =
    ap (λ rows. record { next_id = n; rows = rows }) (fun_ext (λ j. sym (h.1 j)))
    ∙ ap (λ m. record { next_id = m; rows = λ j. row_of j s' }) same

view-set_row :
    (host : ℕ) (o : Option StoredOtp) (s s' : MemoryOtpStore)
    → s'.next_id ≡ s.next_id
    → Replaces host o s s'
    → set_row host o (view s) ≡ view s'
unfolding view set_row
view-set_row host o s s' same h = view-minted host s.next_id o s s' (sym same) h

bind_loop-next_id :
    (crypto : Crypto) (code pepper : List ℕ) (session_id : String) (now : ℕ) (ids : List ℕ)
    (s : MemoryOtpStore)
    → ((bind_loop crypto code pepper session_id now ids s).0).next_id ≡ s.next_id
unfolding bind_loop
bind_loop-next_id crypto code pepper session_id now [] s = refl
bind_loop-next_id crypto code pepper session_id now (id ∷ ids) s =
    ground (arith, bind_loop-next_id crypto code pepper session_id now ids s)

prefilter_bind-next_id :
    (crypto : Crypto) (host : ℕ) (code pepper : List ℕ) (session_id : String) (now : ℕ)
    (s : MemoryOtpStore)
    → ((prefilter_bind crypto host code pepper session_id now s).0).next_id ≡ s.next_id
unfolding prefilter_bind
prefilter_bind-next_id crypto host code pepper session_id now s =
    elim (Option-cases (lookup ℕ_discrete host s.by_host)) [
      | inl free ↦ ground (arith, free)
      | inr (ids, owned) ↦
          ground
            (arith, owned, bind_loop-next_id crypto code pepper session_id now (reversed ids) s)
    ]

consume_loop-next_id :
    (session_id : String) (now : ℕ) (ids : List ℕ) (s : MemoryOtpStore)
    → ((consume_loop session_id now ids s).0).next_id ≡ s.next_id
unfolding consume_loop
consume_loop-next_id session_id now [] s = refl
consume_loop-next_id session_id now (id ∷ ids) s =
    ground (arith, consume_loop-next_id session_id now ids s)

consume_for_session-next_id :
    (host : ℕ) (session_id : String) (now : ℕ) (s : MemoryOtpStore)
    → ((consume_for_session host session_id now s).0).next_id ≡ s.next_id
unfolding consume_for_session
consume_for_session-next_id host session_id now s =
    consume_loop-next_id session_id now (or_empty (lookup ℕ_discrete host s.by_host)) s

both : {A B : Type 0} {a a' : A} {b b' : B} → a ≡ a' → b ≡ b' → ◌≡◌ {A = A × B} (a, b) (a', b')
both p q = cc

pub store_hash-next_id :
    (host : ℕ) (hash : OtpHash) (expires_at now : ℕ) (s : MemoryOtpStore)
    → s.next_id + 1 < 2 ^ 64
    → s.next_id + 1 ≡ ((store_hash host hash expires_at now s).0).next_id
unfolding store_hash
store_hash-next_id host hash expires_at now s fits = omega arith

pub new-IsValid : IsValid new
unfolding new lookup
new-IsValid = record {
  listed = λ host ids h. absurd (ground arith);
  stored = λ id row h. absurd (ground arith);
}

module _ (crypto : Crypto) (pepper : List ℕ) where
  pub table_call-view :
      (c : Call) (s : MemoryOtpStore)
      → s.next_id + 1 < 2 ^ 64
      → IsValid s
      → let x = call crypto pepper c s in
        (table_call crypto pepper c (view s) ≡ (view x.0, x.1))
        × IsValid x.0
        × ((x.0).next_id ≤ s.next_id + 1)
  unfolding call table_call view
  table_call-view (mint host hash expires_at now) s fits v =
      let (same, replaced) = store_hash-Replaces host hash expires_at now s fits v in
      (
        both
            (unfold view in
              view-minted host (s.next_id + 1) _ s _
                (store_hash-next_id host hash expires_at now s fits) replaced)
            (ap minted (sym same)),
        unfold Replaces in replaced.0,
        omega (arith, store_hash-next_id host hash expires_at now s fits),
      )
  table_call-view (bind host code session_id now) s fits v =
      let (same, replaced) = prefilter_bind-Replaces crypto host code pepper session_id now s v in
      let kept = prefilter_bind-next_id crypto host code pepper session_id now s in
      (
        both (unfold view in view-set_row host _ s _ kept replaced) (ap checked (sym same)),
        unfold Replaces in replaced.0,
        omega (arith, kept),
      )
  table_call-view (consume host session_id now) s fits v =
      let (same, replaced) = consume_for_session-Replaces host session_id now s v in
      let kept = consume_for_session-next_id host session_id now s in
      (
        both (unfold view in view-set_row host _ s _ kept replaced) (ap consumed (sym same)),
        unfold Replaces in replaced.0,
        omega (arith, kept),
      )

  answers-table :
      (cs : List Call) (s : MemoryOtpStore)
      → s.next_id + length cs < 2 ^ 64
      → IsValid s
      → answers crypto pepper cs s ≡ table_answers crypto pepper cs (view s)
  unfolding answers table_answers
  answers-table [] s fits v = refl
  answers-table (c ∷ cs) s fits v =
      let (same, valid, low) = table_call-view c s (omega arith) v in
      ground (arith, same, answers-table cs ((call crypto pepper c s).0) (omega (arith, low)) valid)

  -- Whatever series of calls is made of a new store, it answers each of them as a table does that has
  -- at most one code for each host: minting a code replaces the host's, a check or a consumption is
  -- one of that code alone, and no call for one host touches another's code. The series is shorter
  -- than 2^64 calls, so that the counter of the ids does not wrap.
  pub answers_as_table :
      (cs : List Call)
      → length cs < 2 ^ 64
      → answers crypto pepper cs new
        ≡ table_answers crypto pepper cs (record { next_id = 0; rows = λ host. none })
  answers_as_table cs fits =
      answers-table cs new (unfold new in omega arith) new-IsValid
      ∙ ap (table_answers crypto pepper cs) (unfold view row_of row_at new lookup in refl)
