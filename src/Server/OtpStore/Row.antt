-- ===== src/Server/OtpStore/Row.antt =====
-- The store as a table with one code for each host, which its operations are compared with.
use remotelink.Prelude.{
  ℕ, ◌+◌, ◌≤◌, ◌≡◌, ◌≢◌, ◌∙◌, sym, Option, none, some, List, [], ◌∷◌, ℕ_discrete, ite, arith,
  Option-cases, inl, inr,
}
use remotelink.Map.{Map, lookup, insert, remove, remove_all}
use remotelink.Map.Laws.{lookup-insert, lookup-remove}
use remotelink.Server.OtpStore.{StoredOtp, MemoryOtpStore, or_empty}

-- Each host's list has one code, stored under its id for that host, and each stored code stands so in
-- its host's list.
pub record IsValid (s : MemoryOtpStore) : Type 0 where
  pub listed :
      (host : ℕ) (ids : List ℕ)
      → lookup ℕ_discrete host s.by_host ≡ some ids
      → (id : ℕ) × (row : StoredOtp) × (ids ≡ id ∷ [])
        × (lookup ℕ_discrete id s.by_id ≡ some row)
        × (row.host_device_id ≡ host)
  pub stored :
      (id : ℕ) (row : StoredOtp)
      → lookup ℕ_discrete id s.by_id ≡ some row
      → (id ≤ s.next_id)
        × (row.id ≡ id)
        × (lookup ℕ_discrete row.host_device_id s.by_host ≡ some (id ∷ []))

-- The code of a host
unfoldable pub row_at : List ℕ → MemoryOtpStore → Option StoredOtp
row_at [] s = none
row_at (id ∷ ids) s = lookup ℕ_discrete id s.by_id

unfoldable pub row_of : ℕ → MemoryOtpStore → Option StoredOtp
unfolding row_at
row_of host s = row_at (or_empty (lookup ℕ_discrete host s.by_host)) s

-- What is left of the codes once a host's are removed: those of the other hosts.
unfoldable pub old_removed : ℕ → MemoryOtpStore → Map ℕ StoredOtp
old_removed host s = remove_all ℕ_discrete (or_empty (lookup ℕ_discrete host s.by_host)) s.by_id

kept_other :
    (host id : ℕ) (row : StoredOtp) (s : MemoryOtpStore)
    → IsValid s
    → lookup ℕ_discrete id s.by_id ≡ some row
    → row.host_device_id ≢ host
    → lookup ℕ_discrete id (old_removed host s) ≡ some row
unfolding old_removed remove_all
kept_other host id row s v at other = elim (Option-cases (lookup ℕ_discrete host s.by_host)) [
  | inl free ↦ ground (arith, free, at)
  | inr (ids, owned) ↦
      let (o, old, one, there, its) = v.listed host ids owned in
      ground (arith, owned, one, there, its, at, lookup-remove ℕ_discrete o id s.by_id)
]

kept_is_other :
    (host id : ℕ) (row : StoredOtp) (s : MemoryOtpStore)
    → IsValid s
    → lookup ℕ_discrete id (old_removed host s) ≡ some row
    → (lookup ℕ_discrete id s.by_id ≡ some row) × (row.host_device_id ≢ host)
unfolding old_removed remove_all
kept_is_other host id row s v at = elim (Option-cases (lookup ℕ_discrete host s.by_host)) [
  | inl free ↦
      let there : lookup ℕ_discrete id s.by_id ≡ some row = ground (arith, free, at) in
      (there, λ p. ground (arith, free, p, v.stored id row there))
  | inr (ids, owned) ↦
      let (o, old, one, _, its) = v.listed host ids owned in
      let there : lookup ℕ_discrete id s.by_id ≡ some row =
        ground (arith, owned, one, at, lookup-remove ℕ_discrete o id s.by_id) in
      (
        there,
        λ p. ground (
          arith,
          owned,
          one,
          p,
          at,
          v.stored id row there,
          lookup-remove ℕ_discrete o id s.by_id,
        ),
      )
]

-- The store with a host's code replaced
unfoldable pub with_code : ℕ → StoredOtp → MemoryOtpStore → MemoryOtpStore
with_code host row s = record {
  by_id = insert ℕ_discrete (s.next_id + 1) row (old_removed host s);
  by_host = insert ℕ_discrete host ((s.next_id + 1) ∷ []) (remove ℕ_discrete host s.by_host);
  next_id = s.next_id + 1;
}

lookup-by_host :
    (host j : ℕ) (row : StoredOtp) (s : MemoryOtpStore)
    → lookup ℕ_discrete j ((with_code host row s).by_host)
      ≡ ite (ℕ_discrete host j) (some ((s.next_id + 1) ∷ [])) (lookup ℕ_discrete j s.by_host)
unfolding with_code
lookup-by_host host j row s = ground (
  arith,
  lookup-insert ℕ_discrete host j ((s.next_id + 1) ∷ []) (remove ℕ_discrete host s.by_host),
  lookup-remove ℕ_discrete host j s.by_host,
)

lookup-by_id :
    (host i : ℕ) (row : StoredOtp) (s : MemoryOtpStore)
    → lookup ℕ_discrete i ((with_code host row s).by_id)
      ≡ ite (ℕ_discrete (s.next_id + 1) i) (some row) (lookup ℕ_discrete i (old_removed host s))
unfolding with_code
lookup-by_id host i row s = lookup-insert ℕ_discrete (s.next_id + 1) i row (old_removed host s)

pub with_code-IsValid :
    (host : ℕ) (row : StoredOtp) (s : MemoryOtpStore)
    → row.id ≡ s.next_id + 1
    → row.host_device_id ≡ host
    → IsValid s
    → IsValid (with_code host row s)
with_code-IsValid host row s own its v = record {
  listed = λ j ids h. elim (ℕ_discrete host j) [
    | yes p ↦ (
      s.next_id + 1,
      row,
      ground (arith, lookup-by_host host j row s),
      ground (arith, lookup-by_id host (s.next_id + 1) row s),
      its ∙ p,
    )
    | no n ↦
        let (id, old, one, there, whose) =
          v.listed j ids (ground (arith, lookup-by_host host j row s)) in
        (
          id,
          old,
          one,
          ground (
            arith,
            v.stored id old there,
            lookup-by_id host id row s,
            kept_other host id old s v there (λ q. n (sym q ∙ whose)),
          ),
          whose,
        )
  ];
  stored = λ id old h. elim (ℕ_discrete (s.next_id + 1) id) [
    | yes p ↦
        let same : some old ≡ some row = ground (arith, lookup-by_id host id row s, p, h) in
        (
          unfold with_code in omega (arith, p),
          ground (arith, same, p, own),
          ground (arith, same, p, its, lookup-by_host host old.host_device_id row s),
        )
    | no n ↦
        let (there, other) =
          kept_is_other host id old s v (ground (arith, lookup-by_id host id row s)) in
        let (low, its_id, list) = v.stored id old there in
        (
          unfold with_code in omega (arith, low),
          its_id,
          ground (arith, lookup-by_host host old.host_device_id row s, list, other),
        )
  ];
}

pub row_of-with_code :
    (host j : ℕ) (row : StoredOtp) (s : MemoryOtpStore)
    → IsValid s
    → row_of j (with_code host row s) ≡ ite (ℕ_discrete host j) (some row) (row_of j s)
unfolding row_of row_at
row_of-with_code host j row s v = elim (ℕ_discrete host j) [
  | yes p ↦ ground (arith, lookup-by_host host j row s, lookup-by_id host (s.next_id + 1) row s)
  | no n ↦ elim (Option-cases (lookup ℕ_discrete j s.by_host)) [
    | inl free ↦ ground (arith, lookup-by_host host j row s, free)
    | inr (ids, owned) ↦
        let (id, old, one, there, whose) = v.listed j ids owned in
        ground (
          arith,
          lookup-by_host host j row s,
          owned,
          one,
          there,
          v.stored id old there,
          lookup-by_id host id row s,
          kept_other host id old s v there (λ q. n (sym q ∙ whose)),
        )
  ]
]
