-- ===== src/Map/Laws.antt =====
-- The laws of the maps: what a lookup finds after each operation.
use remotelink.Prelude.{
  ◌≡◌, refl, Bool, false, Option, none, some, List, [], ◌∷◌, ite, if◌then◌else◌, arith, ◌≢◌, subst,
}
use mathlib.Core.Option
use remotelink.Map.{
  Map, lookup, remove, insert, remove_all, keys_where, map_values, contains, unless, Distinct,
}

module _ {ℓ} {K V : Type ℓ} (dec : Discrete K) where
  pub lookup-remove :
      (k j : K) (m : Map K V) → lookup dec j (remove dec k m) ≡ ite (dec k j) none (lookup dec j m)
  unfolding lookup remove
  lookup-remove k j [] = ground arith
  lookup-remove k j ((i, v) ∷ m) = ground (arith, lookup-remove k j m)

  pub lookup-insert :
      (k j : K) (v : V) (m : Map K V)
      → lookup dec j (insert dec k v m) ≡ ite (dec k j) (some v) (lookup dec j m)
  unfolding lookup insert
  lookup-insert k j v m = ground (arith, lookup-remove k j m)

  pub lookup-remove_self : (k : K) (m : Map K V) → lookup dec k (remove dec k m) ≡ none
  lookup-remove_self k m = ground (arith, lookup-remove k k m)

  pub lookup-remove_ne :
      (k j : K) (m : Map K V) → k ≢ j → lookup dec j (remove dec k m) ≡ lookup dec j m
  lookup-remove_ne k j m h = ground (arith, lookup-remove k j m)

  pub lookup-insert_self : (k : K) (v : V) (m : Map K V) → lookup dec k (insert dec k v m) ≡ some v
  lookup-insert_self k v m = ground (arith, lookup-insert k k v m)

  pub lookup-insert_ne :
      (k j : K) (v : V) (m : Map K V) → k ≢ j → lookup dec j (insert dec k v m) ≡ lookup dec j m
  lookup-insert_ne k j v m h = ground (arith, lookup-insert k j v m)

  pub remove-Distinct : (k : K) (m : Map K V) → Distinct dec m → Distinct dec (remove dec k m)
  unfolding remove
  remove-Distinct k [] d = tt
  remove-Distinct k ((i, v) ∷ m) d = ground (arith, remove-Distinct k m d.1, lookup-remove k i m)

  pub insert-Distinct :
      (k : K) (v : V) (m : Map K V) → Distinct dec m → Distinct dec (insert dec k v m)
  unfolding insert
  insert-Distinct k v m d = (lookup-remove_self k m, remove-Distinct k m d)

  pub lookup-map_values :
      (f : V → V) (k : K) (m : Map K V)
      → lookup dec k (map_values f m) ≡ Option.map f (lookup dec k m)
  unfolding lookup map_values
  lookup-map_values f k [] = refl
  lookup-map_values f k ((j, v) ∷ m) = ground (arith, lookup-map_values f k m)

  pub map_values-Distinct :
      (f : V → V) (m : Map K V) → Distinct dec m → Distinct dec (map_values f m)
  unfolding map_values
  map_values-Distinct f [] d = tt
  map_values-Distinct f ((k, v) ∷ m) d =
      ground (arith, lookup-map_values f k m, map_values-Distinct f m d.1)

  -- Whether a key is collected, by what is stored under it.
  abbrev pub passes : (V → Bool) → Option V → Bool
  passes p none = false
  passes p (some v) = p v

  pub contains-keys_where :
      (p : V → Bool) (k : K) (m : Map K V)
      → Distinct dec m
      → contains dec k (keys_where p m) ≡ passes p (lookup dec k m)
  unfolding contains keys_where lookup
  contains-keys_where p k [] d = refl
  contains-keys_where p k ((j, v) ∷ m) d =
      let ih = contains-keys_where p k m d.1 in
      elim (dec j k) [
        | yes e ↦
            let miss : lookup dec k m ≡ none = subst (λ i. lookup dec i m ≡ none) e d.0 in
            ground (arith, ih)
        | no n ↦ ground (arith, ih)
      ]

  pub lookup-remove_all :
      (ks : List K) (j : K) (m : Map K V)
      → lookup dec j (remove_all dec ks m) ≡ (if contains dec j ks then none else lookup dec j m)
  unfolding contains remove_all
  lookup-remove_all [] j m = refl
  lookup-remove_all (k ∷ ks) j m =
      ground (arith, lookup-remove_all ks j (remove dec k m), lookup-remove k j m)

  -- The loop that removes what passes the test leaves the rest as it was.
  pub lookup-remove_where :
      (p : V → Bool) (j : K) (m : Map K V)
      → Distinct dec m
      → lookup dec j (remove_all dec (keys_where p m) m) ≡ unless p (lookup dec j m)
  lookup-remove_where p j m d =
      ground (arith, lookup-remove_all (keys_where p m) j m, contains-keys_where p j m d)

  pub remove_all-Distinct :
      (ks : List K) (m : Map K V) → Distinct dec m → Distinct dec (remove_all dec ks m)
  unfolding remove_all
  remove_all-Distinct [] m d = d
  remove_all-Distinct (k ∷ ks) m d = remove_all-Distinct ks (remove dec k m) (remove-Distinct k m d)
