-- ===== src/Server/OtpStore/Refinement.antt =====
-- Each operation of the store is the one of the single code that its host has.
use remotelink.Prelude.{
  ℕ, ◌+◌, ◌^◌, ◌<◌, ◌≡◌, refl, sym, not, ◌||◌, Option, none, some, List, [], ◌∷◌, String,
  ℕ_discrete, Result, ok, err, leb, if◌then◌else◌, ite, arith, Option-cases, ◌⊎◌, inl, inr, subst,
  Bool-cases,
}
use remotelink.Map.{lookup, insert}
use remotelink.Map.Laws.{lookup-insert}
use remotelink.Auth.Crypto.{Crypto}
use remotelink.Auth.Otp.{OtpHash}
use remotelink.Server.OtpStore.{
  StoredOtp, MemoryOtpStore, OtpPrefilterResult, OtpStoreError, Checked, new_row, is_some, is_text,
  store_hash, check_row, bind_loop, prefilter_bind, consume_loop, consume_for_session, reversed,
  no_active_otp, reject, passed_over, refused, answered, not_found, unavailable,
}
use remotelink.Server.OtpStore.Row.{
  IsValid, row_at, row_of, with_code, with_code-IsValid, row_of-with_code, old_removed,
}

-- The store with one code changed
with_row : ℕ → StoredOtp → MemoryOtpStore → MemoryOtpStore
with_row id row s = record s { by_id = insert ℕ_discrete id row s.by_id }

with_row-IsValid :
    (id : ℕ) (row row' : StoredOtp) (s : MemoryOtpStore)
    → lookup ℕ_discrete id s.by_id ≡ some row
    → row'.id ≡ row.id
    → row'.host_device_id ≡ row.host_device_id
    → IsValid s
    → IsValid (with_row id row' s)
unfolding with_row
with_row-IsValid id row row' s at same_id same_host v = record {
  listed = λ j ids h.
      let (i, old, one, there, whose) = v.listed j ids h in
      elim (ℕ_discrete id i) [
        | yes p ↦ (
          i,
          row',
          one,
          ground (arith, p, lookup-insert ℕ_discrete id i row' s.by_id),
          ground (arith, at, there, p, whose, same_host),
        )
        | no n ↦ (
          i,
          old,
          one,
          ground (arith, n, there, lookup-insert ℕ_discrete id i row' s.by_id),
          whose,
        )
      ];
  stored = λ i old h. elim (ℕ_discrete id i) [
    | yes p ↦
        let same : some old ≡ some row' =
          ground (arith, p, h, lookup-insert ℕ_discrete id i row' s.by_id) in
        let (low, own, list) = v.stored id row at in
        (
          ground (arith, low, p),
          ground (arith, same, own, p, same_id),
          ground (arith, same, list, p, same_host),
        )
    | no n ↦ v.stored i old (ground (arith, n, h, lookup-insert ℕ_discrete id i row' s.by_id))
  ];
}

row_of-with_row :
    (id j : ℕ) (row row' : StoredOtp) (s : MemoryOtpStore)
    → lookup ℕ_discrete id s.by_id ≡ some row
    → IsValid s
    → row_of j (with_row id row' s) ≡ ite (ℕ_discrete row.host_device_id j) (some row') (row_of j s)
unfolding with_row row_of row_at
row_of-with_row id j row row' s at v = elim (ℕ_discrete row.host_device_id j) [
  | yes p ↦ ground (arith, p, v.stored id row at, lookup-insert ℕ_discrete id id row' s.by_id)
  | no n ↦ elim (Option-cases (lookup ℕ_discrete j s.by_host)) [
    | inl free ↦ ground (arith, free)
    | inr (ids, owned) ↦
        let (i, old, one, there, whose) = v.listed j ids owned in
        ground (arith, owned, one, there, whose, at, n, lookup-insert ℕ_discrete id i row' s.by_id)
  ]
]

-- The operations on the single code of a host
unfoldable pub bind_row :
    Crypto → List ℕ → List ℕ → String → ℕ → Option StoredOtp → Option StoredOtp × OtpPrefilterResult
bind_row crypto code pepper session_id now none = (none, no_active_otp)
bind_row crypto code pepper session_id now (some row) =
    elim (check_row crypto code pepper session_id now row) [
      | passed_over ↦ (some row, no_active_otp)
      | refused ↦ (some row, reject)
      | answered row' result ↦ (some row', result)
    ]

unfoldable pub consume_row :
    String → ℕ → Option StoredOtp → Option StoredOtp × Result (Unit {0}) OtpStoreError
consume_row session_id now none = (none, err not_found)
consume_row session_id now (some row) =
    if not (is_text session_id row.session_intent_id)
    then (some row, err not_found)
    else if is_some row.consumed_at || leb row.expires_at now
    then (some row, err unavailable)
    else (some (record row { consumed_at = some now }), ok tt)

-- The check keeps the id and the host.
check_row-keeps :
    (crypto : Crypto) (code pepper : List ℕ) (session_id : String) (now : ℕ) (row row' : StoredOtp)
    (result : OtpPrefilterResult)
    → check_row crypto code pepper session_id now row ≡ answered row' result
    → (row'.id ≡ row.id) × (row'.host_device_id ≡ row.host_device_id)
unfolding check_row
check_row-keeps crypto code pepper session_id now row row' result e = (ground arith, ground arith)

Checked-cases :
    (c : Checked)
    → ((c ≡ passed_over) ⊎ (c ≡ refused))
      ⊎ ((row : StoredOtp) × (result : OtpPrefilterResult) × (c ≡ answered row result))
Checked-cases passed_over = inl (inl refl)
Checked-cases refused = inl (inr refl)
Checked-cases (answered row result) = inr (row, result, refl)

-- The new store is valid, the host's code in it is the one that is given, and the other hosts' codes
-- are what they were.
unfoldable pub Replaces : ℕ → Option StoredOtp → MemoryOtpStore → MemoryOtpStore → Type 0
Replaces host o s s' = IsValid s' × ((j : ℕ) → row_of j s' ≡ ite (ℕ_discrete host j) o (row_of j s))

same-Replaces :
    (host : ℕ) (o : Option StoredOtp) (s : MemoryOtpStore)
    → IsValid s
    → row_of host s ≡ o
    → Replaces host o s s
unfolding Replaces
same-Replaces host o s v e =
    (v, λ j. elim (ℕ_discrete host j) [ yes p ↦ ground (arith, e, p) | no n ↦ ground (arith, n) ])

with_row-Replaces :
    (host id : ℕ) (row row' : StoredOtp) (s : MemoryOtpStore)
    → lookup ℕ_discrete id s.by_id ≡ some row
    → row'.id ≡ row.id
    → row'.host_device_id ≡ row.host_device_id
    → row.host_device_id ≡ host
    → IsValid s
    → Replaces host (some row') s (with_row id row' s)
unfolding Replaces
with_row-Replaces host id row row' s at same_id same_host its v = (
  with_row-IsValid id row row' s at same_id same_host v,
  λ j. ground (arith, row_of-with_row id j row row' s at v, its),
)

-- Where a host's code stands, if it has one
row_of-cases :
    (host : ℕ) (s : MemoryOtpStore)
    → IsValid s
    → ((lookup ℕ_discrete host s.by_host ≡ none) × (row_of host s ≡ none))
      ⊎ ((id : ℕ) × (row : StoredOtp) × (lookup ℕ_discrete host s.by_host ≡ some (id ∷ []))
          × (lookup ℕ_discrete id s.by_id ≡ some row)
          × (row.host_device_id ≡ host)
          × (row_of host s ≡ some row))
unfolding row_of row_at
row_of-cases host s v = elim (Option-cases (lookup ℕ_discrete host s.by_host)) [
  | inl free ↦ inl (free, ground (arith, free))
  | inr (ids, owned) ↦
      let (id, row, one, there, whose) = v.listed host ids owned in
      inr (id, row, ground (arith, owned, one), there, whose, ground (arith, owned, one, there))
]

-- A call and the operation on the single code, once both are known
known :
    {R : Type 0} (host : ℕ) (o : Option StoredOtp) (s s₁ : MemoryOtpStore) (r : R)
    (x : MemoryOtpStore × R) (y : Option StoredOtp × R)
    → x ≡ (s₁, r)
    → y ≡ (o, r)
    → Replaces host o s s₁
    → (x.1 ≡ y.1) × Replaces host y.0 s x.0
known host o s s₁ r x y p q h =
    subst (λ z. (z.1 ≡ y.1) × Replaces host y.0 s z.0) (sym p)
      (subst (λ z. (r ≡ z.1) × Replaces host z.0 s s₁) (sym q) (refl, h))

module _ (crypto : Crypto) (host : ℕ) (code pepper : List ℕ) (session_id : String) (now : ℕ) where
  pub prefilter_bind-Replaces :
      (s : MemoryOtpStore)
      → IsValid s
      → let x = prefilter_bind crypto host code pepper session_id now s in
        let y = bind_row crypto code pepper session_id now (row_of host s) in
        (x.1 ≡ y.1) × Replaces host y.0 s x.0
  prefilter_bind-Replaces s v = elim (row_of-cases host s v) [
    | inl (free, unset) ↦
        known host none s s no_active_otp _ _ (unfold prefilter_bind in ground (arith, free))
          (unfold bind_row in ground (arith, unset)) (same-Replaces host none s v unset)
    | inr (id, row, owned, there, whose, set) ↦
        elim (Checked-cases (check_row crypto code pepper session_id now row)) [
          | inl (inl passed) ↦
              known host (some row) s s no_active_otp _ _
                (unfold prefilter_bind bind_loop reversed in ground (arith, owned, there, passed))
                (unfold bind_row in ground (arith, set, passed))
                (same-Replaces host (some row) s v set)
          | inl (inr refuses) ↦
              known host (some row) s s reject _ _
                (unfold prefilter_bind bind_loop reversed in ground (arith, owned, there, refuses))
                (unfold bind_row in ground (arith, set, refuses))
                (same-Replaces host (some row) s v set)
          | inr (row', result, e) ↦
              let (same_id, same_host) =
                check_row-keeps crypto code pepper session_id now row row' result e in
              known host (some row') s (with_row id row' s) result _ _
                (unfold prefilter_bind bind_loop reversed with_row in
                  ground (arith, owned, there, e))
                (unfold bind_row in ground (arith, set, e))
                (with_row-Replaces host id row row' s there same_id same_host whose v)
        ]
  ]

pub consume_for_session-Replaces :
    (host : ℕ) (session_id : String) (now : ℕ) (s : MemoryOtpStore)
    → IsValid s
    → let x = consume_for_session host session_id now s in
      let y = consume_row session_id now (row_of host s) in (x.1 ≡ y.1) × Replaces host y.0 s x.0
consume_for_session-Replaces host session_id now s v = elim (row_of-cases host s v) [
  | inl (free, unset) ↦
      known host none s s (err not_found) _ _
        (unfold consume_for_session consume_loop in ground (arith, free))
        (unfold consume_row in ground (arith, unset)) (same-Replaces host none s v unset)
  | inr (id, row, owned, there, whose, set) ↦
      let changed = record row { consumed_at = some now } in
      let kept = same-Replaces host (some row) s v set in
      elim (Bool-cases (is_text session_id row.session_intent_id)) [
        | inr other ↦
            known host (some row) s s (err not_found) _ _
              (unfold consume_for_session consume_loop in ground (arith, owned, there, other))
              (unfold consume_row in ground (arith, set, other)) kept
        | inl own ↦ elim (Bool-cases (is_some row.consumed_at || leb row.expires_at now)) [
          | inl late ↦
              known host (some row) s s (err unavailable) _ _
                (unfold consume_for_session consume_loop in ground (arith, owned, there, own, late))
                (unfold consume_row in ground (arith, set, own, late)) kept
          | inr live ↦
              known host (some changed) s (with_row id changed s) (ok tt) _ _
                (unfold consume_for_session consume_loop with_row in
                  ground (arith, owned, there, own, live))
                (unfold consume_row in ground (arith, set, own, live))
                (with_row-Replaces host id row changed s there refl refl whose v)
        ]
      ]
]

store_hash-opened :
    (host : ℕ) (hash : OtpHash) (expires_at now : ℕ) (s : MemoryOtpStore)
    → s.next_id + 1 < 2 ^ 64
    → let row = new_row (s.next_id + 1) host hash expires_at now in
      store_hash host hash expires_at now s ≡ (with_code host row s, row)
unfolding store_hash with_code old_removed
store_hash-opened host hash expires_at now s fits = ground arith

pub store_hash-Replaces :
    (host : ℕ) (hash : OtpHash) (expires_at now : ℕ) (s : MemoryOtpStore)
    → s.next_id + 1 < 2 ^ 64
    → IsValid s
    → let x = store_hash host hash expires_at now s in
      let row = new_row (s.next_id + 1) host hash expires_at now in
      (x.1 ≡ row) × Replaces host (some row) s x.0
store_hash-Replaces host hash expires_at now s fits v =
    let row = new_row (s.next_id + 1) host hash expires_at now in
    known host (some row) s (with_code host row s) row (store_hash host hash expires_at now s)
      (some row, row) (store_hash-opened host hash expires_at now s fits) refl
      (unfold Replaces in
        (with_code-IsValid host row s refl refl v, λ j. row_of-with_code host j row s v))
