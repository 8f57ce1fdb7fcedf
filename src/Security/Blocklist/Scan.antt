-- ===== src/Security/Blocklist/Scan.antt =====
-- A blocklist without an index, which scans its entries: the reference that the indexed one is
-- compared with.
use remotelink.Prelude.{
  ℕ, ◌+◌, ◌^◌, ◌≤◌, ◌<◌, ◌≡◌, refl, Bool, true, false, ◌||◌, none, some, List, [], ◌∷◌, ℕ_discrete,
  Result, ok, err, ◌==◌, if◌then◌else◌, arith, Option-cases, inl, inr, Bool-cases, length,
}
use remotelink.Map.{Map, lookup, insert, remove, Distinct}
use remotelink.Security.Blocklist.{
  Key, Key_discrete, BlocklistEntry, NewBlocklistEntry, BlocklistError, MemoryBlocklist, new,
  key_of, key_of_new, row_of, is_some, add, is_blocked, remove_entry, list_for_host, sorted_for,
  conflict, not_found,
}
use remotelink.Security.Blocklist.Index.{IsValid, add-IsValid, remove_entry-IsValid}

unfoldable pub same_key : Key → Key → Bool
same_key j k = elim (Key_discrete j k) [ yes _ ↦ true | no _ ↦ false ]

-- Some entry is on the subject.
unfoldable pub has_subject : Key → Map ℕ BlocklistEntry → Bool
has_subject k [] = false
has_subject k ((id, e) ∷ m) = same_key (key_of e) k || has_subject k m

pub record ScannedBlocklist : Type 0 where
  pub next_id : ℕ
  pub entries : Map ℕ BlocklistEntry

-- A call of the blocklist
pub data Call : Type 0 where
  add_entry : ℕ → NewBlocklistEntry → Call
  check : Key → Call
  take_off : ℕ → ℕ → Call
  list : ℕ → Call

-- What it answers
pub data Answer : Type 0 where
  added : Result BlocklistEntry BlocklistError → Answer
  checked : Bool → Answer
  taken_off : Result (Unit {0}) BlocklistError → Answer
  listed : List BlocklistEntry → Answer

unfoldable pub call : Call → MemoryBlocklist → MemoryBlocklist × Answer
unfolding add is_blocked remove_entry list_for_host
call (add_entry now e) s = let (s', r) = add now e s in (s', added r)
call (check k) s = (s, checked (is_blocked k s))
call (take_off host id) s = let (s', r) = remove_entry host id s in (s', taken_off r)
call (list host) s = (s, listed (list_for_host host s))

unfoldable pub scanned_call : Call → ScannedBlocklist → ScannedBlocklist × Answer
unfolding has_subject sorted_for
scanned_call (add_entry now e) s =
    if has_subject (key_of_new e) s.entries
    then (s, added (err conflict))
    else (let row = row_of (s.next_id + 1) now e in
        (
          record { next_id = s.next_id + 1; entries = insert ℕ_discrete row.id row s.entries },
          added (ok row),
        ))
scanned_call (check k) s = (s, checked (has_subject k s.entries))
scanned_call (take_off host id) s = elim (lookup ℕ_discrete id s.entries) [
  | none ↦ (s, taken_off (err not_found))
  | some e ↦
      if e.host_device_id == host
      then (record s { entries = remove ℕ_discrete id s.entries }, taken_off (ok tt))
      else (s, taken_off (err not_found))
]
scanned_call (list host) s = (s, listed (sorted_for host s.entries))

unfoldable pub answers : List Call → MemoryBlocklist → List Answer
unfolding call
answers [] s = []
answers (c ∷ cs) s = let (s', a) = call c s in a ∷ answers cs s'

unfoldable pub scanned_answers : List Call → ScannedBlocklist → List Answer
unfolding scanned_call
scanned_answers [] s = []
scanned_answers (c ∷ cs) s = let (s', a) = scanned_call c s in a ∷ scanned_answers cs s'

has_subject-lookup :
    (k : Key) (id : ℕ) (e : BlocklistEntry) (m : Map ℕ BlocklistEntry)
    → lookup ℕ_discrete id m ≡ some e
    → key_of e ≡ k
    → has_subject k m ≡ true
unfolding has_subject same_key lookup
has_subject-lookup k id e [] h p = absurd (ground arith)
has_subject-lookup k id e ((j, f) ∷ m) h p = ground (arith, has_subject-lookup k id e m)

has_subject-some :
    (k : Key) (m : Map ℕ BlocklistEntry)
    → Distinct ℕ_discrete m
    → has_subject k m ≡ true
    → (id : ℕ) × (e : BlocklistEntry) × (lookup ℕ_discrete id m ≡ some e) × (key_of e ≡ k)
unfolding has_subject same_key lookup
has_subject-some k [] d h = absurd (ground arith)
has_subject-some k ((j, f) ∷ m) d h = elim (Key_discrete (key_of f) k) [
  | yes p ↦ (j, f, ground arith, p)
  | no n ↦
      let (id, e, found, p) = has_subject-some k m d.1 (ground arith) in
      (id, e, ground (arith, found, d.0), p)
]

has_subject-index :
    (k : Key) (s : MemoryBlocklist)
    → IsValid s
    → has_subject k s.entries ≡ is_some (lookup Key_discrete k s.index)
has_subject-index k s v = elim (Option-cases (lookup Key_discrete k s.index)) [
  | inr (id, found) ↦
      let (e, at, p) = v.stored k id found in
      ground (arith, found, has_subject-lookup k id e s.entries at p)
  | inl gone ↦ elim (Bool-cases (has_subject k s.entries)) [
    | inr none_there ↦ ground (arith, gone, none_there)
    | inl there ↦
        let (id, e, at, p) = has_subject-some k s.entries v.distinct there in
        absurd (ground (arith, gone, v.indexed id e at, p))
  ]
]

-- The blocklist without its index
unfoldable pub forget : MemoryBlocklist → ScannedBlocklist
forget s = record { next_id = s.next_id; entries = s.entries }

call-IsValid :
    (c : Call) (s : MemoryBlocklist) → s.next_id + 1 < 2 ^ 64 → IsValid s → IsValid ((call c s).0)
unfolding call
call-IsValid (add_entry now e) s bound v = add-IsValid now e s bound v
call-IsValid (check k) s bound v = v
call-IsValid (take_off host id) s bound v = remove_entry-IsValid host id s v
call-IsValid (list host) s bound v = v

call-next_id : (c : Call) (s : MemoryBlocklist) → ((call c s).0).next_id ≤ s.next_id + 1
unfolding call add remove_entry
call-next_id (add_entry now e) s = ground arith
call-next_id (check k) s = ground arith
call-next_id (take_off host id) s = ground arith
call-next_id (list host) s = ground arith

scanned_call-forget :
    (c : Call) (s : MemoryBlocklist)
    → s.next_id + 1 < 2 ^ 64
    → IsValid s
    → scanned_call c (forget s) ≡ (forget ((call c s).0), (call c s).1)
unfolding call scanned_call forget add remove_entry is_blocked list_for_host
scanned_call-forget (add_entry now e) s bound v =
    ground (arith, has_subject-index (key_of_new e) s v)
scanned_call-forget (check k) s bound v = ground (arith, has_subject-index k s v)
scanned_call-forget (take_off host id) s bound v = ground arith
scanned_call-forget (list host) s bound v = refl

answers-scanned_answers :
    (cs : List Call) (s : MemoryBlocklist)
    → s.next_id + length cs < 2 ^ 64
    → IsValid s
    → answers cs s ≡ scanned_answers cs (forget s)
unfolding answers scanned_answers
answers-scanned_answers [] s bound v = refl
answers-scanned_answers (c ∷ cs) s bound v = ground (
  arith,
  scanned_call-forget c s (omega arith) v,
  answers-scanned_answers cs ((call c s).0) (omega (arith, call-next_id c s))
      (call-IsValid c s (omega arith) v),
)

-- Whatever series of calls is made of a new blocklist, it answers each of them, errors included, as
-- one without an index does that looks through all its entries. The series is shorter than 2^64
-- calls, so that the counter of the ids does not wrap.
pub answers_as_scanned :
    (cs : List Call)
    → length cs < 2 ^ 64
    → answers cs new ≡ scanned_answers cs (record { next_id = 0; entries = [] })
unfolding new forget
answers_as_scanned cs bound = answers-scanned_answers cs new (omega arith) (record {
  distinct = tt;
  given_out = λ id e h. absurd (unfold lookup in ground arith);
  indexed = λ id e h. absurd (unfold lookup in ground arith);
  stored = λ k id h. absurd (unfold lookup in ground arith);
})
