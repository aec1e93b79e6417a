-- ===== src/Hashmap/Tests.antt =====
-- The hash map of kernel/base/hashmap.c with numbers as keys, under a hash that makes all collide.
use ccoperating_system_x.Common.{
  ℕ, zero, suc, ◌≡◌, refl, Bool, true, false, some, [], ◌∷◌, ◌==◌, arith,
}
use ccoperating_system_x.Hashmap.{Hashmap, Entry, chain_at, put, remove}
use ccoperating_system_x.Hashmap.Chain.{distinct}
use ccoperating_system_x.Hashmap.Laws.{IsHash, IsValid, PutReply, put-PutReply, Removed, remove-get}

abbrev collide : ℕ → ℕ
collide k = 6

abbrev eq : ℕ → ℕ → Bool
eq a b = a == b

collide-IsHash : IsHash collide eq
collide-IsHash = record {
  equality = record {
    reflexive = λ a. ground arith;
    symmetric = λ a b. ground arith;
    transitive = λ a b c h h'. ground arith;
  };
  respects = λ a b h. refl;
}

abbrev entry : ℕ → ℕ → Entry ℕ ℕ
entry k v = record { key = k; value = some v }

abbrev two_keys : Hashmap ℕ ℕ
two_keys = record {
  buckets = [] ∷ [] ∷ (entry 3 30 ∷ entry 5 50 ∷ []) ∷ [] ∷ [];
  num_buckets = 4;
  size = 2;
}

two_keys-distinct : (i : ℕ) → distinct collide eq (chain_at collide eq two_keys i) ≡ true
two_keys-distinct zero = refl
two_keys-distinct (suc zero) = refl
two_keys-distinct (suc (suc zero)) = refl
two_keys-distinct (suc (suc (suc zero))) = refl
two_keys-distinct (suc (suc (suc (suc i)))) = refl

two_keys-IsValid : IsValid collide eq two_keys
two_keys-IsValid = record {
  sized = refl;
  some_bucket = omega arith;
  distinct_keys = two_keys-distinct;
}

put-PutReply_example :
    PutReply collide eq two_keys 5 (some 51) false (put collide eq two_keys 5 (some 51) false)
put-PutReply_example =
    put-PutReply collide eq two_keys 5 (some 51) false collide-IsHash two_keys-IsValid

remove-get_example : Removed collide eq two_keys 5 (remove collide eq two_keys 5)
remove-get_example = remove-get collide eq two_keys 5 collide-IsHash two_keys-IsValid
