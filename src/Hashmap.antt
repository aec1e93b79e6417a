-- ===== src/Hashmap.antt =====
-- kernel/base/hashmap.c: a chained hash table. A key pointer is a value of `K` and is not NULL; a
-- value pointer is an `Option`, `none` for NULL. The hash and the equality are arguments, as they
-- are function pointers in the source, and so is what `kmalloc` answers (`true` for memory).
pub mod Chain
pub mod Laws
mod Tests
use Prim.Native.Nat.{bit_and, bit_or}
use ccoperating_system_x.Common.{
  ℕ, zero, suc, ◌+◌, ◌-◌, ◌/◌, ◌%◌, ◌^◌, Bool, true, false, not, ◌&&◌, Option, none, some, List, [],
  ◌∷◌, ◌==◌, if◌then◌else◌, get_or, set, replicate,
}

-- `hash_entry_t`, without the link: a chain is the list of its entries.
pub record Entry {ℓ κ} (K : Type ℓ) (V : Type κ) : Type (ℓ ⊔ κ) where
  pub key : K
  pub value : Option V

-- `hashmap_t`
pub record Hashmap {ℓ κ} (K : Type ℓ) (V : Type κ) : Type (ℓ ⊔ κ) where
  pub buckets : List (List (Entry K V))
  pub num_buckets : ℕ
  pub size : ℕ

-- What `hashmap_put` returns: 0, or -2 where there is no memory.
pub data Status : Type 0 where
  ok oom : Status

-- `buckets |= buckets >> k`
abbrev smear : ℕ → ℕ → ℕ
smear n k = bit_or n (n / 2 ^ k)

-- The number of buckets that `hashmap_create` makes of the number that is asked for.
unfoldable pub round_buckets : ℕ → ℕ
round_buckets n =
    if bit_and n (n - 1) == 0
    then n
    else (smear (smear (smear (smear (smear (n - 1) 1) 2) 4) 8) 16 + 1) % 2 ^ 64

-- `hashmap_create`, by what `kmalloc` answers for the structure and for the array.
unfoldable pub create {ℓ κ} : {K : Type ℓ} {V : Type κ} → ℕ → Bool → Bool → Option (Hashmap K V)
unfolding round_buckets
create n for_map for_buckets =
    if n == 0
    then none
    else if not for_map
    then none
    else if not for_buckets
    then none
    else some (record {
      buckets = replicate (round_buckets n) [];
      num_buckets = round_buckets n;
      size = 0;
    })

module _ {ℓ κ} {K : Type ℓ} {V : Type κ} (hash : K → ℕ) (eq : K → K → Bool) where
  unfoldable pub bucket_index : Hashmap K V → K → ℕ
  bucket_index m k = bit_and (hash k) (m.num_buckets - 1)

  -- The loop of `hashmap_put` over a chain: the chain with the value updated, if the key is there.
  unfoldable pub update : K → Option V → List (Entry K V) → Option (List (Entry K V))
  update k v [] = none
  update k v (e ∷ chain) =
      let rest = update k v chain in
      if eq e.key k
      then some (record e { value = v } ∷ chain)
      else elim rest [ none ↦ none | some chain' ↦ some (e ∷ chain') ]

  -- The loop of `hashmap_get`.
  unfoldable pub lookup : K → List (Entry K V) → Option V
  lookup k [] = none
  lookup k (e ∷ chain) = if eq e.key k then e.value else lookup k chain

  -- The loop of `hashmap_remove`: the value and the chain without its entry, if the key is there.
  unfoldable pub unlink : K → List (Entry K V) → Option (Option V × List (Entry K V))
  unlink k [] = none
  unlink k (e ∷ chain) =
      let rest = unlink k chain in
      if eq e.key k
      then some (e.value, chain)
      else elim rest [ none ↦ none | some (v, chain') ↦ some (v, e ∷ chain') ]

  abbrev pub chain_at : Hashmap K V → ℕ → List (Entry K V)
  chain_at m i = get_or m.buckets i []

  -- The rest of `hashmap_put`, behind its loop over the chain of the bucket `i`.
  unfoldable pub put_chain :
      Hashmap K V → ℕ → K → Option V → Bool → Option (List (Entry K V)) → Status × Hashmap K V
  put_chain m i k v memory (some chain) = (ok, record m { buckets = set m.buckets i chain })
  put_chain m i k v false none = (oom, m)
  put_chain m i k v true none = (
    ok,
    record m {
      buckets = set m.buckets i (record { key = k; value = v } ∷ chain_at m i);
      size = (m.size + 1) % 2 ^ 64;
    },
  )

  -- `hashmap_put`; `memory` is what `kmalloc` answers for a new entry.
  unfoldable pub put : Hashmap K V → K → Option V → Bool → Status × Hashmap K V
  unfolding put_chain
  put m k v memory =
      let i = bucket_index m k in put_chain m i k v memory (update k v (chain_at m i))

  -- `hashmap_get`
  unfoldable pub get : Hashmap K V → K → Option V
  unfolding bucket_index
  get m k = lookup k (chain_at m (bucket_index m k))

  -- The rest of `hashmap_remove`, behind its loop.
  unfoldable pub remove_chain :
      Hashmap K V → ℕ → Option (Option V × List (Entry K V)) → Option V × Hashmap K V
  remove_chain m i none = (none, m)
  remove_chain m i (some (v, chain)) =
      (v, record m { buckets = set m.buckets i chain; size = (m.size + 2 ^ 64 - 1) % 2 ^ 64 })

  -- `hashmap_remove`
  unfoldable pub remove : Hashmap K V → K → Option V × Hashmap K V
  unfolding remove_chain
  remove m k = let i = bucket_index m k in remove_chain m i (unlink k (chain_at m i))

  -- `hashmap_contains`: a key whose value is NULL is not contained.
  unfoldable pub contains : Hashmap K V → K → Bool
  unfolding get
  contains m k = elim (get m k) [ none ↦ false | some v ↦ true ]

-- `hashmap_clear`
unfoldable pub clear {ℓ κ} : {K : Type ℓ} {V : Type κ} → Hashmap K V → Hashmap K V
clear m = record m { buckets = replicate m.num_buckets []; size = 0 }
