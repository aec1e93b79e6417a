-- ===== src/Hashmap/Chain.antt =====
-- The chains of kernel/base/hashmap.c: what the loops do to the values that a lookup finds.
use ccoperating_system_x.Common.{
  ℕ, ◌≡◌, refl, sym, ◌∙◌, inl, inr, Bool, true, false, Option, none, some, List, [], ◌∷◌,
  if◌then◌else◌, Bool-cases, Option-cases, arith,
}
use ccoperating_system_x.Hashmap.{Entry, update, lookup, unlink}

-- The equality function is an equivalence.
pub record IsEquality {ℓ} {K : Type ℓ} (eq : K → K → Bool) : Type ℓ where
  pub reflexive : (a : K) → eq a a ≡ true
  pub symmetric : (a b : K) → eq a b ≡ eq b a
  pub transitive : (a b c : K) → eq a b ≡ true → eq b c ≡ true → eq a c ≡ true

module _ {ℓ} {K : Type ℓ} (eq : K → K → Bool) (l : IsEquality eq) where
  -- Equal keys compare alike.
  pub eq_left : (a b c : K) → eq a b ≡ true → eq a c ≡ eq b c
  eq_left a b c e = elim (Bool-cases (eq b c)) [
    | inl h ↦ l.transitive a b c e h ∙ sym h
    | inr h ↦ elim (Bool-cases (eq a c)) [
      | inl h' ↦
          let clash : true ≡ false = sym (l.transitive b a c (l.symmetric b a ∙ e) h') ∙ h in cc
      | inr h' ↦ h' ∙ sym h
    ]
  ]

  pub eq_apart : (a b c : K) → eq a b ≡ false → eq a c ≡ true → eq b c ≡ false
  eq_apart a b c e h = elim (Bool-cases (eq b c)) [
    | inr h' ↦ h'
    | inl h' ↦
        let clash : true ≡ false = sym (l.transitive a c b h (l.symmetric c b ∙ h')) ∙ e in cc
  ]

  pub eq_congruent : (k j x : K) → eq k j ≡ true → eq x k ≡ false → eq x j ≡ false
  eq_congruent k j x e h = elim (Bool-cases (eq x j)) [
    | inr h' ↦ h'
    | inl h' ↦
        let clash : true ≡ false = sym (l.transitive x j k h' (l.symmetric j k ∙ e)) ∙ h in cc
  ]

module _ {ℓ κ} {K : Type ℓ} {V : Type κ} (hash : K → ℕ) (eq : K → K → Bool) where
  -- An updated chain answers the new value at the key, and what it answered elsewhere.
  pub lookup-update :
      IsEquality eq
      → (k j : K) (v : Option V) (chain chain' : List (Entry K V))
      → update hash eq k v chain ≡ some chain'
      → lookup hash eq j chain' ≡ (if eq k j then v else lookup hash eq j chain)
  unfolding update lookup
  lookup-update l k j v [] chain' h = cc
  lookup-update l k j v (e ∷ chain) chain' h =
      let left = eq_left eq l e.key k j in
      let apart = eq_apart eq l e.key k j in
      elim (Bool-cases (eq e.key k)) [
        | inl a ↦ ground (arith, left a)
        | inr a ↦ elim (Option-cases (update hash eq k v chain)) [
          | inl none_there ↦ ground arith
          | inr (rest, r) ↦ ground (arith, lookup-update l k j v chain rest r, apart a)
        ]
      ]

  -- Whether some entry of the chain has a key that equals `k`.
  abbrev pub has_key : K → List (Entry K V) → Bool
  has_key k [] = false
  has_key k (e ∷ chain) = if eq e.key k then true else has_key k chain

  -- Whether no two entries have equal keys.
  abbrev pub distinct : List (Entry K V) → Bool
  distinct [] = true
  distinct (e ∷ chain) = if has_key e.key chain then false else distinct chain

  pub lookup-absent :
      (k : K) (chain : List (Entry K V)) → has_key k chain ≡ false → lookup hash eq k chain ≡ none
  unfolding lookup
  lookup-absent k [] h = refl
  lookup-absent k (e ∷ chain) h = ground (arith, lookup-absent k chain)

  -- Equal keys are there together.
  pub has_key-eq :
      IsEquality eq
      → (k j : K) (chain : List (Entry K V)) → eq k j ≡ true
      → has_key j chain ≡ has_key k chain
  has_key-eq l k j [] e = refl
  has_key-eq l k j (x ∷ chain) e =
      let same : eq x.key j ≡ eq x.key k =
        l.symmetric x.key j ∙ sym (eq_left eq l k j x.key e) ∙ l.symmetric k x.key in
      rw (same, has_key-eq l k j chain e) refl

  -- The loop of `hashmap_put` misses exactly where the key is not there.
  pub update-absent :
      (k : K) (v : Option V) (chain : List (Entry K V))
      → update hash eq k v chain ≡ none
      → has_key k chain ≡ false
  unfolding update
  update-absent k v [] h = refl
  update-absent k v (e ∷ chain) h = elim (Bool-cases (eq e.key k)) [
    | inl a ↦ absurd ground arith
    | inr a ↦ elim (Option-cases (update hash eq k v chain)) [
      | inl r ↦ ground (arith, update-absent k v chain r)
      | inr (rest, r) ↦ absurd ground arith
    ]
  ]

  -- An update moves no key.
  update-has_key :
      (k j : K) (v : Option V) (chain chain' : List (Entry K V))
      → update hash eq k v chain ≡ some chain'
      → has_key j chain' ≡ has_key j chain
  unfolding update
  update-has_key k j v [] chain' h = absurd ground arith
  update-has_key k j v (e ∷ chain) chain' h = elim (Bool-cases (eq e.key k)) [
    | inl a ↦ ground arith
    | inr a ↦ elim (Option-cases (update hash eq k v chain)) [
      | inl r ↦ absurd ground arith
      | inr (rest, r) ↦ ground (arith, update-has_key k j v chain rest r)
    ]
  ]

  pub update-distinct :
      (k : K) (v : Option V) (chain chain' : List (Entry K V))
      → update hash eq k v chain ≡ some chain'
      → distinct chain' ≡ distinct chain
  unfolding update
  update-distinct k v [] chain' h = absurd ground arith
  update-distinct k v (e ∷ chain) chain' h = elim (Bool-cases (eq e.key k)) [
    | inl a ↦ ground arith
    | inr a ↦ elim (Option-cases (update hash eq k v chain)) [
      | inl r ↦ absurd ground arith
      | inr (rest, r) ↦
          ground (arith, update-has_key k e.key v chain rest r, update-distinct k v chain rest r)
    ]
  ]

  -- The loop of `hashmap_remove` misses exactly where the key is not there.
  pub unlink-absent :
      (k : K) (chain : List (Entry K V)) → unlink hash eq k chain ≡ none → has_key k chain ≡ false
  unfolding unlink
  unlink-absent k [] h = refl
  unlink-absent k (e ∷ chain) h = elim (Bool-cases (eq e.key k)) [
    | inl a ↦ absurd ground arith
    | inr a ↦ elim (Option-cases (unlink hash eq k chain)) [
      | inl r ↦ ground (arith, unlink-absent k chain r)
      | inr (rest, r) ↦ absurd ground arith
    ]
  ]

  -- What an unlinked chain has, and what the loop returned.
  pub unlink-lookup :
      IsEquality eq
      → (k j : K) (v : Option V) (chain chain' : List (Entry K V)) → distinct chain ≡ true
      → unlink hash eq k chain ≡ some (v, chain')
      → (v ≡ lookup hash eq k chain)
        × (lookup hash eq j chain' ≡ (if eq k j then none else lookup hash eq j chain))
        × (has_key j chain' ≡ (if eq k j then false else has_key j chain))
        × (distinct chain' ≡ true)
  unfolding unlink lookup
  unlink-lookup l k j v [] chain' d h = absurd ground arith
  unlink-lookup l k j v (e ∷ chain) chain' d h =
      let left = eq_left eq l e.key k j in
      let apart = eq_apart eq l e.key k j in
      let gone = has_key-eq l e.key k chain in
      let gone' = has_key-eq l k j chain in
      let none_at = lookup-absent j chain in
      elim (Bool-cases (eq e.key k)) [
        | inl a ↦
            let p = left a in
            let q = gone a in
            elim (Bool-cases (eq k j)) [
              | inl b ↦ let r = gone' b in ground arith
              | inr b ↦ ground arith
            ]
        | inr a ↦ elim (Option-cases (unlink hash eq k chain)) [
          | inl r ↦ absurd ground arith
          | inr ((w, rest), r) ↦
              let p = apart a in
              let (value, found, keys, still) = unlink-lookup l k j w chain rest (ground arith) r in
              let (_, _, keys', _) = unlink-lookup l k e.key w chain rest (ground arith) r in
              (ground arith, ground arith, ground arith, ground arith)
        ]
      ]
