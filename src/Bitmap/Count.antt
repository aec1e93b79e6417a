-- ===== src/Bitmap/Count.antt =====
-- How the number of set bits moves, and `bitmap_full` and `bitmap_empty` of kernel/bitmap/bitmap.c.
use native.Mathlib.Decide.{ℕ_discrete}
use ccoperating_system_x.Common.{
  ℕ, zero, suc, ◌+◌, ◌*◌, ◌≤◌, ◌<◌, ◌≡◌, refl, ap, ◌∙◌, ◌↔◌, Bool, true, false, ◌==◌, if◌then◌else◌,
  arith,
}
use ccoperating_system_x.Bitmap.{Bitmap, byte_count, weight, full, empty}
use ccoperating_system_x.Bitmap.Valid.{IsValid, Wrote, is_set}
use ccoperating_system_x.Bitmap.Weight.{count_true, IsClean, weight-eq-count}

pub count_true-le : (p : ℕ → Bool) (n : ℕ) → count_true p n ≤ n
unfolding count_true
count_true-le p zero = omega arith
count_true-le p (suc n) = ground (arith, count_true-le p n)

pub count_true-ext :
    (p q : ℕ → Bool) (n : ℕ) → ((j : ℕ) → j < n → p j ≡ q j) → count_true p n ≡ count_true q n
unfolding count_true
count_true-ext p q zero h = refl
count_true-ext p q (suc n) h =
    rw (h n (omega arith), count_true-ext p q n (λ j lt. h j (omega arith)))

-- One more index.
pub count_true-insert :
    (p q : ℕ → Bool) (k n : ℕ)
    → k < n
    → p k ≡ false
    → ((j : ℕ) → q j ≡ (if k == j then true else p j))
    → count_true q n ≡ count_true p n + 1
unfolding count_true
count_true-insert p q k zero lt e h = absurd (omega arith)
count_true-insert p q k (suc n) lt e h = elim (ℕ_discrete k n) [
  | yes same ↦ ground (
    arith,
    h n,
    (let e' : p n ≡ false = rw (← same) e in e'),
    count_true-ext q p n (λ j lt'. h j ∙ ground arith),
  )
  | no other ↦ ground (arith, h n, count_true-insert p q k n (omega arith) e h)
]

-- All indices, or none.
pub count_true-all : (p : ℕ → Bool) (n j : ℕ) → count_true p n ≡ n → j < n → p j ≡ true
unfolding count_true
count_true-all p zero j e lt = absurd (omega arith)
count_true-all p (suc n) j e lt = elim (ℕ_discrete j n) [
  | yes same ↦ rw same (ground (arith, count_true-le p n))
  | no other ↦ ground (arith, count_true-le p n, count_true-all p n j)
]

pub count_true_every : (p : ℕ → Bool) (n : ℕ) → ((j : ℕ) → j < n → p j ≡ true) → count_true p n ≡ n
unfolding count_true
count_true_every p zero h = refl
count_true_every p (suc n) h =
    ground (arith, h n (omega arith), count_true_every p n (λ j lt. h j (omega arith)))

pub count_true-none : (p : ℕ → Bool) (n j : ℕ) → count_true p n ≡ 0 → j < n → p j ≡ false
unfolding count_true
count_true-none p zero j e lt = absurd (omega arith)
count_true-none p (suc n) j e lt = elim (ℕ_discrete j n) [
  | yes same ↦ rw same (ground arith)
  | no other ↦ ground (arith, count_true-none p n j)
]

pub count_true_never : (p : ℕ → Bool) (n : ℕ) → ((j : ℕ) → j < n → p j ≡ false) → count_true p n ≡ 0
unfolding count_true
count_true_never p zero h = refl
count_true_never p (suc n) h =
    ground (arith, h n (omega arith), count_true_never p n (λ j lt. h j (omega arith)))

-- In a valid bitmap whose padding is clear, `bitmap_full` says exactly whether every bit is set.
pub full_iff :
    (bm : Bitmap)
    → IsValid bm
    → IsClean bm
    → (full bm ≡ true) ↔ ((j : ℕ) → j < bm.nbits → is_set bm j ≡ true)
unfolding full
full_iff bm v c = (
  λ h j lt. count_true-all (is_set bm) bm.nbits j (ground (arith, weight-eq-count bm v c)) lt,
  λ h. ground (arith, weight-eq-count bm v c, count_true_every (is_set bm) bm.nbits h),
)

-- In a valid bitmap whose padding is clear, `bitmap_empty` says exactly whether no bit is set.
pub empty_iff :
    (bm : Bitmap)
    → IsValid bm
    → IsClean bm
    → (empty bm ≡ true) ↔ ((j : ℕ) → j < bm.nbits → is_set bm j ≡ false)
unfolding empty
empty_iff bm v c = (
  λ h j lt. count_true-none (is_set bm) bm.nbits j (ground (arith, weight-eq-count bm v c)) lt,
  λ h. ground (arith, weight-eq-count bm v c, count_true_never (is_set bm) bm.nbits h),
)

-- A write to bits that the bitmap has leaves the padding clear.
pub Wrote-IsClean :
    (f : Bool → Bool) (p : ℕ → Bool) (bm bm' : Bitmap)
    → ((j : ℕ) → bm.nbits ≤ j → p j ≡ false)
    → Wrote f p bm bm'
    → IsClean bm
    → IsClean bm'
Wrote-IsClean f p bm bm' out w c j lo hi =
    let lo' : bm.nbits ≤ j = omega (arith, w.same_size) in
    let hi' : j < 8 * byte_count bm.nbits = rw w.same_size at hi in
    w.bit j ∙ rw (out j lo') (c j lo' hi')

module _ (bm bm' : Bitmap) (k : ℕ) (v : IsValid bm) (c : IsClean bm) (h : k < bm.nbits) where
  beyond : (j : ℕ) → bm.nbits ≤ j → (k == j) ≡ false
  beyond j le = ground arith

  -- Setting a clear bit adds one to the weight.
  pub weight-set :
      is_set bm k ≡ false
      → Wrote (λ _. true) (λ j. k == j) bm bm'
      → IsClean bm' × (weight bm' ≡ weight bm + 1)
  weight-set e w =
      let c' : IsClean bm' = Wrote-IsClean (λ _. true) (λ j. k == j) bm bm' beyond w c in
      let after : weight bm' ≡ count_true (is_set bm') bm.nbits =
        weight-eq-count bm' w.valid c' ∙ ap (count_true (is_set bm')) w.same_size in
      (
        c',
        omega (
          arith,
          weight-eq-count bm v c,
          after,
          count_true-insert (is_set bm) (is_set bm') k bm.nbits h e w.bit,
        ),
      )

  -- Clearing a set bit takes one from the weight.
  pub weight-clear :
      is_set bm k ≡ true
      → Wrote (λ _. false) (λ j. k == j) bm bm'
      → IsClean bm' × (weight bm ≡ weight bm' + 1)
  weight-clear e w =
      let c' : IsClean bm' = Wrote-IsClean (λ _. false) (λ j. k == j) bm bm' beyond w c in
      let e' : is_set bm' k ≡ false = w.bit k ∙ ground arith in
      let after : weight bm' ≡ count_true (is_set bm') bm.nbits =
        weight-eq-count bm' w.valid c' ∙ ap (count_true (is_set bm')) w.same_size in
      (
        c',
        omega (
          arith,
          weight-eq-count bm v c,
          after,
          count_true-insert (is_set bm') (is_set bm) k bm.nbits h e' (λ j. ground (arith, w.bit j)),
        ),
      )
