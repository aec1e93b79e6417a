-- ===== src/Text/Number/Reverse.antt =====
-- `reverse_str` of kernel/base/strhelpers.c reverses.
use native.Mathlib.Decide.{ℕ_discrete}
use ccoperating_system_x.Common.{
  ap₂, get_or-append, Bool-cases, inl, inr, ℕ, zero, suc, ◌+◌, ◌-◌, ◌≤◌, ◌<◌, ◌≡◌, refl, sym, ap,
  ◌∙◌, true, false, ◌&&◌, ◌==◌, ltb, leb, if◌then◌else◌, [], ◌∷◌, ◌++◌, get_or, set, length,
  length-set, length-append, get_or-set_self, get_or-set_ne, arith,
}
use ccoperating_system_x.Text.Number.{Text, swap_ends, reverse_str}

abbrev pub rev : Text → Text
rev [] = []
rev (c ∷ s) = rev s ++ c ∷ []

-- A character after two writes.
get_or-swap :
    (s : Text) (i j k a b : ℕ)
    → i < j
    → j < length s
    → get_or (set (set s i a) j b) k 0 ≡ (if k == j then b else if k == i then a else get_or s k 0)
get_or-swap s i j k a b lt inside = elim (ℕ_discrete k j) [
  | yes e ↦
      let at : (k == j) ≡ true = ground arith in
      let p = get_or-set_self (set s i a) j b 0 (omega (arith, length-set s i a)) in
      rw at (ap (λ z. get_or (set (set s i a) j b) z 0) e ∙ p)
  | no n ↦
      let off : (k == j) ≡ false = ground arith in
      let p = get_or-set_ne (set s i a) j k b 0 (λ q. n (sym q)) in
      rw off (
        p ∙ elim (ℕ_discrete k i) [
          | yes e ↦
              let here : (k == i) ≡ true = ground arith in
              rw here (ap (λ z. get_or (set s i a) z 0) e ∙ get_or-set_self s i a 0 (omega arith))
          | no m ↦
              let there : (k == i) ≡ false = ground arith in
              rw there (get_or-set_ne s i k a 0 (λ q. m (sym q)))
        ])
]

-- The loop turns the characters from `i` to `j` around.
abbrev turned : Text → ℕ → ℕ → ℕ → ℕ
turned s i j k = if leb i k && leb k j then get_or s (i + j - k) 0 else get_or s k 0

turned_trivial : (s : Text) (i j k : ℕ) → j ≤ i → get_or s k 0 ≡ turned s i j k
turned_trivial s i j k le = ground arith

turned_step :
    (s s' : Text) (i j k : ℕ)
    → i < j
    → ((m : ℕ)
        → get_or s' m 0
          ≡ (if m == j then get_or s i 0 else if m == i then get_or s j 0 else get_or s m 0))
    → turned s' (i + 1) (j - 1) k ≡ turned s i j k
turned_step s s' i j k lt swap = ground (arith, swap k, swap (i + 1 + (j - 1) - k))

swap_ends_lem :
    (rounds : ℕ) (s : Text) (i j k : ℕ)
    → j < i + rounds + rounds + 1
    → j < length s
    → get_or (swap_ends rounds s i j) k 0 ≡ turned s i j k
unfolding swap_ends
swap_ends_lem zero s i j k enough inside = turned_trivial s i j k (omega arith)
swap_ends_lem (suc rounds) s i j k enough inside = elim (Bool-cases (ltb i j)) [
  | inl e ↦
      let lt : i < j = ground arith in
      let swapped = set (set s i (get_or s j 0)) j (get_or s i 0) in
      let long =
        length-set (set s i (get_or s j 0)) j (get_or s i 0) ∙ length-set s i (get_or s j 0) in
      rw e (
        swap_ends_lem rounds swapped (i + 1) (j - 1) k (omega arith) (omega (arith, long))
        ∙ turned_step s swapped i j k lt
            (λ m. get_or-swap s i j m (get_or s j 0) (get_or s i 0) lt inside))
  | inr e ↦ rw e (turned_trivial s i j k (ground arith))
]

length-swap_ends : (rounds : ℕ) (s : Text) (i j : ℕ) → length (swap_ends rounds s i j) ≡ length s
unfolding swap_ends
length-swap_ends zero s i j = refl
length-swap_ends (suc rounds) s i j = elim (Bool-cases (ltb i j)) [
  | inl e ↦
      let swapped = set (set s i (get_or s j 0)) j (get_or s i 0) in
      rw e (
        length-swap_ends rounds swapped (i + 1) (j - 1)
        ∙ length-set (set s i (get_or s j 0)) j (get_or s i 0)
        ∙ length-set s i (get_or s j 0))
  | inr e ↦ rw e refl
]

length-rev : (s : Text) → length (rev s) ≡ length s
length-rev [] = refl
length-rev (c ∷ s) = omega (arith, length-append (rev s) (c ∷ []), length-rev s)

get_or-rev : (s : Text) (k : ℕ) → k < length s → get_or (rev s) k 0 ≡ get_or s (length s - 1 - k) 0
get_or-rev [] k h = absurd (omega arith)
get_or-rev (c ∷ s) k h = elim (ℕ_discrete k (length s)) [
  | yes e ↦ ground (arith, get_or-append (rev s) c k 0, length-rev s)
  | no n ↦
      let low : k < length s = omega arith in
      let place : suc (length s) - 1 - k ≡ suc (length s - 1 - k) = omega arith in
      let ih = get_or-rev s k low in
      rw place (get_or-append (rev s) c k 0 ∙ ground (arith, ih, length-rev s))
]

text_ext :
    (s t : Text)
    → length s ≡ length t
    → ((k : ℕ) → k < length s → get_or s k 0 ≡ get_or t k 0)
    → s ≡ t
text_ext [] [] l same = refl
text_ext [] (d ∷ t) l same = absurd (omega arith)
text_ext (c ∷ s) [] l same = absurd (omega arith)
text_ext (c ∷ s) (d ∷ t) l same =
    ap₂ (λ x y. x ∷ y) (same 0 (omega arith))
      (text_ext s t (omega arith) (λ k lt. same (suc k) (omega arith)))

-- `reverse_str` turns the whole string around: its rounds are enough.
pub reverse_str_lem : (s : Text) → reverse_str s ≡ rev s
unfolding reverse_str swap_ends
reverse_str_lem [] = refl
reverse_str_lem (c ∷ s) =
    let n = length s in
    let text = c ∷ s in
    let long = length-swap_ends (suc n) text 0 (suc n - 1) in
    text_ext (swap_ends (suc n) text 0 (suc n - 1)) (rev text) (long ∙ sym (length-rev text))
      λ k lt.
        let t = swap_ends_lem (suc n) text 0 (suc n - 1) k (omega arith) (omega arith) in
        let r = get_or-rev text k (omega (arith, long)) in t ∙ ground (arith, r, long)
