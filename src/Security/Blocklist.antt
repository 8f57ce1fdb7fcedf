-- ===== src/Security/Blocklist.antt =====
-- The blocklist of a host (apps/server/src/security/blocklist.rs), in memory: the entries under
-- their ids, and an index of the subjects. Subjects are hashed before they come here. Instants are
-- numbers.
pub mod Index
pub mod Scan
use remotelink.Prelude.{
  ℕ, ◌+◌, ◌%◌, ◌^◌, ◌≡◌, Bool, true, false, not, ◌&&◌, ◌||◌, Option, none, some, List, [], ◌∷◌, map,
  String, String_discrete, ℕ_discrete, Result, ok, err, ltb, ◌==◌, if◌then◌else◌,
}
use remotelink.Map.{Map, lookup, insert, remove}

pub data BlockSubjectType : Type 0 where
  ip : BlockSubjectType
  viewer_fingerprint : BlockSubjectType
  device : BlockSubjectType

unfoldable pub BlockSubjectType_discrete : Discrete BlockSubjectType
BlockSubjectType_discrete = hlevel

unfoldable pub as_str : BlockSubjectType → String
as_str ip = "ip"
as_str viewer_fingerprint = "viewer_fingerprint"
as_str device = "device"

abbrev is_text : String → String → Bool
is_text a b = elim (String_discrete a b) [ yes _ ↦ true | no _ ↦ false ]

unfoldable pub parse : String → Option BlockSubjectType
parse s =
    if is_text s "ip"
    then some ip
    else if is_text s "viewer_fingerprint"
    then some viewer_fingerprint
    else if is_text s "device"
    then some device
    else none

-- The subject of an entry: the host, the kind and the hash
pub record Key : Type 0 where
  pub host_device_id : ℕ
  pub subject_type : BlockSubjectType
  pub subject_hash : String

unfoldable pub Key_discrete : Discrete Key
unfolding ℕ_discrete String_discrete BlockSubjectType_discrete
Key_discrete = hlevel (ℕ_discrete, String_discrete, BlockSubjectType_discrete)

pub record BlocklistEntry : Type 0 where
  pub id : ℕ
  pub host_device_id : ℕ
  pub subject_type : BlockSubjectType
  pub subject_hash : String
  pub created_at : ℕ

pub record NewBlocklistEntry : Type 0 where
  pub host_device_id : ℕ
  pub subject_type : BlockSubjectType
  pub subject_hash : String

pub data BlocklistError : Type 0 where
  not_found : BlocklistError
  conflict : BlocklistError

pub record MemoryBlocklist : Type 0 where
  pub next_id : ℕ
  pub entries : Map ℕ BlocklistEntry
  pub index : Map Key ℕ

unfoldable pub new : MemoryBlocklist
new = record { next_id = 0; entries = []; index = [] }

abbrev pub key_of : BlocklistEntry → Key
key_of e = record {
  host_device_id = e.host_device_id;
  subject_type = e.subject_type;
  subject_hash = e.subject_hash;
}

abbrev pub key_of_new : NewBlocklistEntry → Key
key_of_new e = record {
  host_device_id = e.host_device_id;
  subject_type = e.subject_type;
  subject_hash = e.subject_hash;
}

-- `contains_key`
abbrev pub is_some : {A : Type 0} → Option A → Bool
is_some none = false
is_some (some _) = true

-- `fetch_add(1) + 1` on the bits of an i64, as a release build computes it. With overflow checks the
-- addition panics at the largest i64.
abbrev pub next : ℕ → ℕ
next n = (n + 1) % 2 ^ 64

abbrev pub row_of : ℕ → ℕ → NewBlocklistEntry → BlocklistEntry
row_of id now entry = record {
  id = id;
  host_device_id = entry.host_device_id;
  subject_type = entry.subject_type;
  subject_hash = entry.subject_hash;
  created_at = now;
}

-- A lock that is poisoned is left out: no call panics while it holds the lock.
unfoldable pub add :
    ℕ → NewBlocklistEntry → MemoryBlocklist → MemoryBlocklist × Result BlocklistEntry BlocklistError
add now entry s =
    let key = key_of_new entry in
    if is_some (lookup Key_discrete key s.index)
    then (s, err conflict)
    else (let id = next s.next_id in
        let row = row_of id now entry in
        (
          record {
            next_id = id;
            entries = insert ℕ_discrete id row s.entries;
            index = insert Key_discrete key id s.index;
          },
          ok row,
        ))

unfoldable pub is_blocked : Key → MemoryBlocklist → Bool
is_blocked key s = is_some (lookup Key_discrete key s.index)

-- The bits of an i64 as a number in the order of i64
abbrev signed : ℕ → ℕ
signed id = (id + 2 ^ 63) % 2 ^ 64

-- Whether the first entry stands before the second: the newer first, and among those of one instant
-- the higher id
unfoldable pub stands_before : BlocklistEntry → BlocklistEntry → Bool
stands_before a b =
    ltb b.created_at a.created_at
    || ((a.created_at == b.created_at) && not (ltb (signed a.id) (signed b.id)))

-- `sort_by`, which is stable, as an insertion sort
unfoldable pub insert_sorted : BlocklistEntry → List BlocklistEntry → List BlocklistEntry
unfolding stands_before
insert_sorted e [] = e ∷ []
insert_sorted e (f ∷ fs) =
    let rest = insert_sorted e fs in if stands_before e f then e ∷ f ∷ fs else f ∷ rest

unfoldable pub sorted_for : ℕ → Map ℕ BlocklistEntry → List BlocklistEntry
unfolding insert_sorted
sorted_for host [] = []
sorted_for host ((id, e) ∷ m) =
    let rest = sorted_for host m in if e.host_device_id == host then insert_sorted e rest else rest

unfoldable pub list_for_host : ℕ → MemoryBlocklist → List BlocklistEntry
unfolding sorted_for
list_for_host host s = sorted_for host s.entries

unfoldable pub remove_entry :
    ℕ → ℕ → MemoryBlocklist → MemoryBlocklist × Result (Unit {0}) BlocklistError
remove_entry host id s = elim (lookup ℕ_discrete id s.entries) [
  | none ↦ (s, err not_found)
  | some entry ↦ if not (entry.host_device_id == host) then (s, err not_found) else (
    record s {
      entries = remove ℕ_discrete id s.entries;
      index = remove Key_discrete (key_of entry) s.index;
    },
    ok tt,
  )
]

-- The first of the host's subjects that is blocked
unfoldable pub any_blocked :
    ℕ → List (BlockSubjectType × String) → MemoryBlocklist → Option (BlockSubjectType × String)
unfolding is_blocked
any_blocked host [] s = none
any_blocked host ((ty, hash) ∷ subjects) s =
    let rest = any_blocked host subjects s in
    if is_blocked (record { host_device_id = host; subject_type = ty; subject_hash = hash }) s
    then some (ty, hash)
    else rest
