-- ===== src/Heap/Fit.antt =====
-- `find_best_fit` of kernel/mm/heap/heap.c.
use ccoperating_system_x.Common.{
  ℕ, zero, suc, ◌≤◌, ◌<◌, ◌≡◌, ◌≢◌, refl, Bool, true, false, ◌==◌, leb, ltb, if◌then◌else◌, List,
  [], ◌∷◌, arith, length, ◌⊎◌, inl, inr, Bool-cases, ◌&&◌, ◌||◌, sym, ap, subst,
}
use ccoperating_system_x.Heap.{Memory, Heap, size_of, next_of}
use ccoperating_system_x.Heap.Links.{best_fit, find_best_fit}
use ccoperating_system_x.Heap.Links.Chain.{Chain, Contains}

-- The outcome of the search, from `best` on, through the rest of the list.
record Fit (m : Memory) (size best : ℕ) (xs : List ℕ) (r : ℕ) : Type 0 where
  pub found : (r ≡ best) ⊎ Contains r xs
  pub fits : r ≢ 0 → size ≤ size_of m r
  pub least : (x : ℕ) → Contains x xs → size ≤ size_of m x → (r ≢ 0) × (size_of m r ≤ size_of m x)
  pub no_worse : best ≢ 0 → (r ≢ 0) × (size_of m r ≤ size_of m best)

-- The test of the loop.
abbrev better : Memory → ℕ → ℕ → ℕ → Bool
better m size best x = leb size (size_of m x) && (best == 0 || ltb (size_of m x) (size_of m best))

module _ (m : Memory) (size best x : ℕ) (xs : List ℕ)
    (good : best ≢ 0 → size ≤ size_of m best) where
  exact-Fit : 0 < x → size_of m x ≡ size → Fit m size best (x ∷ xs) x
  exact-Fit pos e = record {
    found = inr (inl refl);
    fits = λ ne. omega arith;
    least = λ y i s. (λ z. omega arith, omega arith);
    no_worse = λ ne. (λ z. omega arith, omega (arith, good ne));
  }

  taken-Fit :
      (r : ℕ) → 0 < x → better m size best x ≡ true → Fit m size x xs r → Fit m size best (x ∷ xs) r
  taken-Fit r pos b f =
      let n = f.no_worse (λ z. omega arith) in
      record {
        found = inr (elim f.found [ inl e ↦ inl e | inr i ↦ inr i ]);
        fits = f.fits;
        least = λ y i s. elim i [
          | inl e ↦ (n.0, omega (arith, ap (size_of m) e, n.1))
          | inr i' ↦ f.least y i' s
        ];
        no_worse = λ ne. (n.0, ground (arith, n.1));
      }

  kept_best :
      better m size best x ≡ false
      → size ≤ size_of m x
      → (best ≢ 0) × (size_of m best ≤ size_of m x)
  kept_best b s = (λ z. absurd (ground arith), ground arith)

  kept_no_worse :
      (r y : ℕ)
      → better m size best x ≡ false
      → Fit m size best xs r
      → y ≡ x
      → size ≤ size_of m y
      → (r ≢ 0) × (size_of m r ≤ size_of m y)
  kept_no_worse r y b f e s =
      let q = ap (size_of m) e in
      let k = kept_best b (omega (arith, q, s)) in
      let n = f.no_worse k.0 in (n.0, omega (arith, q, n.1, k.1))

  kept-Fit :
      (r : ℕ) → better m size best x ≡ false → Fit m size best xs r → Fit m size best (x ∷ xs) r
  kept-Fit r b f = record {
    found = elim f.found [ inl e ↦ inl e | inr i ↦ inr (inr i) ];
    fits = f.fits;
    least = λ y i s. elim i [ inl e ↦ kept_no_worse r y b f e s | inr i' ↦ f.least y i' s ];
    no_worse = f.no_worse;
  }

best_fit-end :
    (fuel : ℕ) (m : Memory) (size best curr : ℕ) → curr ≡ 0 → best_fit fuel m size best curr ≡ best
unfolding best_fit
best_fit-end zero m size best curr e = refl
best_fit-end (suc fuel) m size best curr e = ground arith

best_fit-step :
    (fuel : ℕ) (m : Memory) (size best x : ℕ) (take exact : Bool)
    → 0 < x
    → better m size best x ≡ take
    → (size_of m x == size) ≡ exact
    → best_fit (suc fuel) m size best x
      ≡ (if take && exact then x else best_fit fuel m size (if take then x else best) (next_of m x))
unfolding best_fit
best_fit-step fuel m size best x take exact pos b q =
    let some_block : (x == 0) ≡ false = ground arith in rw (some_block, b, q) refl

best_fit-Fit :
    (fuel : ℕ) (m : Memory) (size best prev curr : ℕ) (xs : List ℕ)
    → Chain m prev curr xs
    → length xs ≤ fuel
    → (best ≢ 0 → size ≤ size_of m best)
    → Fit m size best xs (best_fit fuel m size best curr)
best_fit-Fit fuel m size best prev curr [] c f good =
    rw (best_fit-end fuel m size best curr c) (record {
      found = inl refl;
      fits = good;
      least = λ x i s. absurd i;
      no_worse = λ ne. (ne, omega arith);
    })
best_fit-Fit zero m size best prev curr (x ∷ xs) c f good = absurd (omega arith)
best_fit-Fit (suc fuel) m size best prev curr (x ∷ xs) (e, l, al, back, rest) f good =
    let pos : 0 < x = omega arith in
    subst (λ k. Fit m size best (x ∷ xs) (best_fit (suc fuel) m size best k)) (sym e)
      (elim (Bool-cases (better m size best x)) [
        | inl b ↦ elim (Bool-cases (size_of m x == size)) [
          | inl q ↦
              rw (best_fit-step fuel m size best x true true pos b q)
                (exact-Fit m size best x xs good pos (ground arith))
          | inr q ↦ rw (best_fit-step fuel m size best x true false pos b q) (
              taken-Fit m size best x xs good _ pos b (
                best_fit-Fit fuel m size x x (next_of m x) xs rest (omega arith)
                  (λ ne. ground arith)))
        ]
        | inr b ↦ rw (best_fit-step fuel m size best x false (size_of m x == size) pos b refl) (
            kept-Fit m size best x xs good _ b
              (best_fit-Fit fuel m size best x (next_of m x) xs rest (omega arith) good))
      ])

-- What the search promises: no block where the free list has none that is large enough, and
-- otherwise a block of the list that is large enough and not larger than any other such block.
pub record BestFit (m : Memory) (size : ℕ) (xs : List ℕ) (r : ℕ) : Type 0 where
  pub in_list : r ≢ 0 → Contains r xs
  pub large : r ≢ 0 → size ≤ size_of m r
  pub smallest :
      (x : ℕ) → Contains x xs → size ≤ size_of m x → (r ≢ 0) × (size_of m r ≤ size_of m x)

-- Where the rounds are enough for the list, the search returns a best fit: NULL only where no
-- block is large enough, and else a smallest one of those that are.
pub find_best_fit-BestFit :
    (fuel : ℕ) (h : Heap) (size : ℕ) (xs : List ℕ)
    → Chain h.memory 0 h.free_list xs
    → length xs ≤ fuel
    → BestFit h.memory size xs (find_best_fit fuel h size)
unfolding find_best_fit
find_best_fit-BestFit fuel h size xs c f =
    let fit = best_fit-Fit fuel h.memory size 0 0 h.free_list xs c f (λ ne. absurd (ne refl)) in
    record {
      in_list = λ ne. elim fit.found [ inl z ↦ absurd (ne z) | inr i ↦ i ];
      large = fit.fits;
      smallest = fit.least;
    }
