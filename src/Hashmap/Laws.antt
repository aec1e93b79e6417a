-- ===== src/Hashmap/Laws.antt =====
-- kernel/base/hashmap.c as a map: what `hashmap_get` answers after each operation.
use native.Mathlib.Decide.{ℕ_discrete}
use mathlib.Core.Path.{subst}
use Prim.Native.Nat.{bit_and}
use ccoperating_system_x.Common.{
  ℕ, ◌-◌, ◌<◌, ◌≡◌, refl, ap, sym, ◌∙◌, inl, inr, Bool, true, false, Option, none, List, [],
  if◌then◌else◌, Bool-cases, Option-cases, arith, length, get_or, set, length-set, get_or-set_self,
  get_or-set_ne,
}
use ccoperating_system_x.Common.Bits.{bit_and-le}
use ccoperating_system_x.Hashmap.{
  Hashmap, Entry, Status, ok, oom, bucket_index, chain_at, update, lookup, unlink, put, put_chain,
  get, remove, remove_chain,
}
use ccoperating_system_x.Hashmap.Chain.{
  IsEquality, distinct, has_key, lookup-update, update-absent, update-distinct, unlink-absent,
  unlink-lookup, lookup-absent, has_key-eq,
}

-- Equal keys have equal hashes, and the equality is an equivalence.
pub record IsHash {ℓ} {K : Type ℓ} (hash : K → ℕ) (eq : K → K → Bool) : Type ℓ where
  pub equality : IsEquality eq
  pub respects : (a b : K) → eq a b ≡ true → hash a ≡ hash b

module _ {ℓ κ} {K : Type ℓ} {V : Type κ} (hash : K → ℕ) (eq : K → K → Bool) where
  -- There are as many buckets as the map says, and no chain has a key twice.
  pub record IsValid (m : Hashmap K V) : Type (ℓ ⊔ κ) where
    pub sized : length m.buckets ≡ m.num_buckets
    pub some_bucket : 0 < m.num_buckets
    pub distinct_keys : (i : ℕ) → distinct hash eq (chain_at hash eq m i) ≡ true

  -- A bucket of the map replaced.
  abbrev with_chain : Hashmap K V → ℕ → List (Entry K V) → ℕ → Hashmap K V
  with_chain m i chain n = record m { buckets = set m.buckets i chain; size = n }

  index-lt : (m : Hashmap K V) (k : K) → IsValid m → bucket_index hash eq m k < length m.buckets
  unfolding bucket_index
  index-lt m k v = omega (arith, bit_and-le (hash k) (m.num_buckets - 1), v.sized, v.some_bucket)

  index-eq :
      (m : Hashmap K V) (k j : K)
      → IsHash hash eq
      → eq k j ≡ true
      → bucket_index hash eq m k ≡ bucket_index hash eq m j
  unfolding bucket_index
  index-eq m k j h e = ap (λ n. bit_and n (m.num_buckets - 1)) (h.respects k j e)

  with_chain-IsValid :
      (m : Hashmap K V) (i : ℕ) (chain : List (Entry K V)) (n : ℕ)
      → IsValid m
      → i < length m.buckets
      → distinct hash eq chain ≡ true
      → IsValid (with_chain m i chain n)
  with_chain-IsValid m i chain n v lt d = record {
    sized = length-set m.buckets i chain ∙ v.sized;
    some_bucket = v.some_bucket;
    distinct_keys = λ j. elim (ℕ_discrete i j) [
      | yes e ↦
          ap (λ j. distinct hash eq (get_or (set m.buckets i chain) j [])) (sym e)
          ∙ ap (distinct hash eq) (get_or-set_self m.buckets i chain [] lt)
          ∙ d
      | no ne ↦ ap (distinct hash eq) (get_or-set_ne m.buckets i j chain [] ne) ∙ v.distinct_keys j
    ];
  }

  -- A replaced chain that answers `v` at the key, and what it answered elsewhere, changes the map
  -- at the key alone.
  get-with_chain :
      (m : Hashmap K V) (k j : K) (v : Option V) (chain : List (Entry K V)) (n : ℕ)
      → IsHash hash eq
      → IsValid m
      → lookup hash eq j chain
        ≡ (if eq k j then v else lookup hash eq j (chain_at hash eq m (bucket_index hash eq m k)))
      → get hash eq (with_chain m (bucket_index hash eq m k) chain n) j
        ≡ (if eq k j then v else get hash eq m j)
  unfolding get
  get-with_chain m k j v chain n h valid e =
      let lt = index-lt m k valid in
      let b = bucket_index hash eq m k in
      let i = bucket_index hash eq m j in
      elim (ℕ_discrete b i) [
        | yes same ↦
            ap (λ i. lookup hash eq j (get_or (set m.buckets b chain) i [])) (sym same)
            ∙ ap (lookup hash eq j) (get_or-set_self m.buckets b chain [] lt)
            ∙ e
            ∙ ap (λ i. if eq k j then v else lookup hash eq j (chain_at hash eq m i)) same
        | no apart ↦
            let other : eq k j ≡ false = elim (Bool-cases (eq k j)) [
              | inl t ↦ absurd (apart (index-eq m k j h t))
              | inr f ↦ f
            ] in
            ap (lookup hash eq j) (get_or-set_ne m.buckets b i chain [] apart)
            ∙ sym (ap (λ c. if c then v else lookup hash eq j (chain_at hash eq m i)) other)
      ]

  get-chain :
      (m : Hashmap K V) (k : K)
      → lookup hash eq k (chain_at hash eq m (bucket_index hash eq m k)) ≡ get hash eq m k
  unfolding get
  get-chain m k = refl

  get-absent :
      (m : Hashmap K V) (k : K)
      → has_key hash eq k (chain_at hash eq m (bucket_index hash eq m k)) ≡ false
      → get hash eq m k ≡ none
  get-absent m k e = sym (get-chain m k) ∙ lookup-absent hash eq k _ e

  -- A key that is not there has no value, and no key that equals it has one.
  get-missing :
      (m : Hashmap K V) (k j : K)
      → IsHash hash eq
      → has_key hash eq k (chain_at hash eq m (bucket_index hash eq m k)) ≡ false
      → get hash eq m j ≡ (if eq k j then none else get hash eq m j)
  get-missing m k j h gone = elim (Bool-cases (eq k j)) [
    | inr f ↦ rw f refl
    | inl t ↦
        let chain : List (Entry K V) = chain_at hash eq m (bucket_index hash eq m k) in
        rw t (
          get-absent m j (
            ap (λ i. has_key hash eq j (chain_at hash eq m i)) (sym (index-eq m k j h t))
            ∙ has_key-eq hash eq h.equality k j chain t
            ∙ gone))
  ]

  -- What `hashmap_put` may answer: 0, with a valid map that has the new value at the key, and at
  -- every other key what it had; or -2, with nothing changed, where the key is not there.
  pub data PutReply (m : Hashmap K V) (k : K) (v : Option V) (memory : Bool)
      : Status × Hashmap K V → Type (ℓ ⊔ κ) where
    stored :
        {m' : Hashmap K V}
        → IsValid m'
        → ((j : K) → get hash eq m' j ≡ (if eq k j then v else get hash eq m j))
        → PutReply m k v memory (ok, m')
    no_memory : memory ≡ false → get hash eq m k ≡ none → PutReply m k v memory (oom, m)

  -- The new chain of a `hashmap_put` that answers 0.
  stored-chain :
      (m : Hashmap K V) (k : K) (v : Option V) (memory : Bool) (chain : List (Entry K V)) (n : ℕ)
      → IsHash hash eq
      → IsValid m
      → distinct hash eq chain ≡ true
      → ((j : K)
          → lookup hash eq j chain ≡ (
              if eq k j
              then v
              else lookup hash eq j (chain_at hash eq m (bucket_index hash eq m k))))
      → PutReply m k v memory (ok, with_chain m (bucket_index hash eq m k) chain n)
  stored-chain m k v memory chain n h valid d e =
      stored (with_chain-IsValid m (bucket_index hash eq m k) chain n valid (index-lt m k valid) d)
        (λ j. get-with_chain m k j v chain n h valid (e j))

  absent-PutReply :
      (m : Hashmap K V) (k : K) (v : Option V) (memory : Bool)
      → IsHash hash eq
      → IsValid m
      → has_key hash eq k (chain_at hash eq m (bucket_index hash eq m k)) ≡ false
      → PutReply m k v memory (put_chain hash eq m (bucket_index hash eq m k) k v memory none)
  unfolding put_chain lookup
  absent-PutReply m k v true h valid gone =
      stored-chain m k v true _ _ h valid (rw gone (valid.distinct_keys (bucket_index hash eq m k)))
        (λ j. refl)
  absent-PutReply m k v false h valid gone = no_memory refl (get-absent m k gone)

  -- `hashmap_put` on a valid map, for an equality that is an equivalence and a hash that respects
  -- it: it answers 0, and then the map is valid and `hashmap_get` finds
  -- the new value at each key that equals the one put, and what it found before at every other key;
  -- or it answers -2 without memory, the key has no value, and nothing changes.
  pub put-PutReply :
      (m : Hashmap K V) (k : K) (v : Option V) (memory : Bool)
      → IsHash hash eq
      → IsValid m
      → PutReply m k v memory (put hash eq m k v memory)
  unfolding put put_chain
  put-PutReply m k v memory h valid =
      let b = bucket_index hash eq m k in
      let chain : List (Entry K V) = chain_at hash eq m b in
      elim (Option-cases (update hash eq k v chain)) [
        | inr (chain', r) ↦
            subst (λ o. PutReply m k v memory (put_chain hash eq m b k v memory o)) (sym r)
              (stored-chain m k v memory chain' m.size h valid
                (update-distinct hash eq k v chain chain' r ∙ valid.distinct_keys b)
                (λ j. lookup-update hash eq h.equality k j v chain chain' r))
        | inl r ↦
            subst (λ o. PutReply m k v memory (put_chain hash eq m b k v memory o)) (sym r)
              (absent-PutReply m k v memory h valid (update-absent hash eq k v chain r))
      ]

  -- What `hashmap_remove` answers: the value at the key, and a valid map without the key.
  abbrev pub Removed : Hashmap K V → K → Option V × Hashmap K V → Type (ℓ ⊔ κ)
  Removed m k r =
      (r.0 ≡ get hash eq m k)
      × IsValid r.1
      × ((j : K) → get hash eq r.1 j ≡ (if eq k j then none else get hash eq m j))

  -- For an equality that is an equivalence and a hash that respects it, `hashmap_remove` on a valid
  -- map returns what `hashmap_get` finds at the key; then the map is
  -- valid, has no value at the keys that equal it, and has at every other key what it had.
  pub remove-get :
      (m : Hashmap K V) (k : K) → IsHash hash eq → IsValid m → Removed m k (remove hash eq m k)
  unfolding remove remove_chain
  remove-get m k h valid =
      let b = bucket_index hash eq m k in
      let chain : List (Entry K V) = chain_at hash eq m b in
      elim (Option-cases (unlink hash eq k chain)) [
        | inr ((v, chain'), r) ↦
            let facts = λ (j : K).
              unlink-lookup hash eq h.equality k j v chain chain' (valid.distinct_keys b) r in
            subst (λ o. Removed m k (remove_chain hash eq m b o)) (sym r)
              (
                (facts k).0 ∙ get-chain m k,
                with_chain-IsValid m b chain' _ valid (index-lt m k valid) (facts k).3,
                λ j. get-with_chain m k j none chain' _ h valid (facts j).1,
              )
        | inl r ↦
            let gone = unlink-absent hash eq k chain r in
            subst (λ o. Removed m k (remove_chain hash eq m b o)) (sym r)
              (sym (get-absent m k gone), valid, λ j. get-missing m k j h gone)
      ]
