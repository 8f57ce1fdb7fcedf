-- ===== src/Security/Blocklist/Index.antt =====
-- The index agrees with the entries, so that the blocklist answers as one would that scans them.
use remotelink.Prelude.{
  ℕ, ◌+◌, ◌^◌, ◌≤◌, ◌<◌, ◌≡◌, refl, none, some, ℕ_discrete, ◌==◌, arith, Option-cases, inl, inr,
  Bool-cases, subst,
}
use remotelink.Map.{lookup, insert, remove, Distinct}
use remotelink.Map.Laws.{lookup-insert, lookup-remove, insert-Distinct, remove-Distinct}
use remotelink.Security.Blocklist.{
  Key, Key_discrete, BlocklistEntry, NewBlocklistEntry, MemoryBlocklist, key_of, key_of_new, row_of,
  add, remove_entry,
}

-- Each entry stands under its own id, which has been given out, and the index has just the
-- subjects of the entries, each with its entry's id.
pub record IsValid (s : MemoryBlocklist) : Type 0 where
  pub distinct : Distinct ℕ_discrete s.entries
  pub given_out :
      (id : ℕ) (e : BlocklistEntry)
      → lookup ℕ_discrete id s.entries ≡ some e
      → (e.id ≡ id) × (id ≤ s.next_id)
  pub indexed :
      (id : ℕ) (e : BlocklistEntry)
      → lookup ℕ_discrete id s.entries ≡ some e
      → lookup Key_discrete (key_of e) s.index ≡ some id
  pub stored :
      (k : Key) (id : ℕ)
      → lookup Key_discrete k s.index ≡ some id
      → (e : BlocklistEntry) × (lookup ℕ_discrete id s.entries ≡ some e) × (key_of e ≡ k)

-- The blocklist with one more entry
abbrev with_row : ℕ → BlocklistEntry → MemoryBlocklist → MemoryBlocklist
with_row id row s = record {
  next_id = id;
  entries = insert ℕ_discrete id row s.entries;
  index = insert Key_discrete (key_of row) id s.index;
}

with_row-IsValid :
    (row : BlocklistEntry) (s : MemoryBlocklist)
    → row.id ≡ s.next_id + 1
    → lookup Key_discrete (key_of row) s.index ≡ none
    → IsValid s
    → IsValid (with_row (s.next_id + 1) row s)
with_row-IsValid row s own free v = record {
  distinct = insert-Distinct ℕ_discrete (s.next_id + 1) row s.entries v.distinct;
  given_out = λ id e h.
      ground (arith, lookup-insert ℕ_discrete (s.next_id + 1) id row s.entries, v.given_out id e);
  indexed = λ id e h. ground (
    arith,
    lookup-insert ℕ_discrete (s.next_id + 1) id row s.entries,
    lookup-insert Key_discrete (key_of row) (key_of e) (s.next_id + 1) s.index,
    v.indexed id e,
  );
  stored = λ k id h. elim (Key_discrete (key_of row) k) [
    | yes p ↦ (
      row,
      ground (
        arith,
        lookup-insert ℕ_discrete (s.next_id + 1) id row s.entries,
        lookup-insert Key_discrete (key_of row) k (s.next_id + 1) s.index,
      ),
      p,
    )
    | no n ↦
        let (e, found, same) =
          v.stored k id
            (ground (arith, lookup-insert Key_discrete (key_of row) k (s.next_id + 1) s.index)) in
        (
          e,
          ground (
            arith,
            found,
            v.given_out id e found,
            lookup-insert ℕ_discrete (s.next_id + 1) id row s.entries,
          ),
          same,
        )
  ];
}

without_row-IsValid :
    (id : ℕ) (entry : BlocklistEntry) (s : MemoryBlocklist)
    → lookup ℕ_discrete id s.entries ≡ some entry
    → IsValid s
    → IsValid (record s {
      entries = remove ℕ_discrete id s.entries;
      index = remove Key_discrete (key_of entry) s.index;
    })
without_row-IsValid id entry s at v = record {
  distinct = remove-Distinct ℕ_discrete id s.entries v.distinct;
  given_out = λ j e h. ground (arith, lookup-remove ℕ_discrete id j s.entries, v.given_out j e);
  indexed = λ j e h. ground (
    arith,
    lookup-remove ℕ_discrete id j s.entries,
    lookup-remove Key_discrete (key_of entry) (key_of e) s.index,
    v.indexed j e,
    v.indexed id entry at,
  );
  stored = λ k j h.
      let (e, found, same) =
        v.stored k j (ground (arith, lookup-remove Key_discrete (key_of entry) k s.index)) in
      (
        e,
        ground (
          arith,
          lookup-remove ℕ_discrete id j s.entries,
          lookup-remove Key_discrete (key_of entry) k s.index,
          found,
          same,
          at,
        ),
        same,
      );
}

pub add-IsValid :
    (now : ℕ) (entry : NewBlocklistEntry) (s : MemoryBlocklist)
    → s.next_id + 1 < 2 ^ 64
    → IsValid s
    → IsValid ((add now entry s).0)
unfolding add
add-IsValid now entry s bound v =
    elim (Option-cases (lookup Key_discrete (key_of_new entry) s.index)) [
      | inr (id, found) ↦ subst (λ t. IsValid t) (ground (arith, found)) v
      | inl free ↦
          subst (λ t. IsValid t) (ground (arith, free))
            (with_row-IsValid (row_of (s.next_id + 1) now entry) s refl free v)
    ]

pub remove_entry-IsValid :
    (host id : ℕ) (s : MemoryBlocklist) → IsValid s → IsValid ((remove_entry host id s).0)
unfolding remove_entry
remove_entry-IsValid host id s v = elim (Option-cases (lookup ℕ_discrete id s.entries)) [
  | inl gone ↦ subst (λ t. IsValid t) (ground (arith, gone)) v
  | inr (entry, at) ↦ elim (Bool-cases (entry.host_device_id == host)) [
    | inl own ↦
        subst (λ t. IsValid t) (ground (arith, at, own)) (without_row-IsValid id entry s at v)
    | inr other ↦ subst (λ t. IsValid t) (ground (arith, at, other)) v
  ]
]
