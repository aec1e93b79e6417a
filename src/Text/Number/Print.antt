-- ===== src/Text/Number/Print.antt =====
-- The digits that the printers of kernel/base/strhelpers.c write, read again.
use native.Mathlib.Nat.{mod-lt, mod-eq_of_lt, div-add-mod', mul-le-mul_left}
use ccoperating_system_x.Common.{
  ℕ, zero, suc, ◌+◌, ◌*◌, ◌/◌, ◌%◌, ◌^◌, ◌≤◌, ◌<◌, ◌≡◌, refl, sym, ap, ◌∙◌, true, false, ◌==◌, ltb,
  leb, if◌then◌else◌, [], ◌∷◌, ◌++◌, append_assoc, Bool-cases, inl, inr, ◌⊎◌, arith, All, length,
}
use ccoperating_system_x.Text.Number.{Text, u64, is_alnum, digit_of, digit_char, low_digits, scan}
use ccoperating_system_x.Text.Number.Reverse.{rev}

-- The digits from the first to the last, in front of `out`.
abbrev pub digits : ℕ → ℕ → ℕ → Text → Text
digits zero n base out = out
digits (suc rounds) n base out =
    if n / base == 0
    then digit_char (n % base) ∷ out
    else digits rounds (n / base) base (digit_char (n % base) ∷ out)

pub rev-low_digits :
    (rounds n base : ℕ) (out : Text)
    → rev (low_digits rounds n base) ++ out ≡ digits rounds n base out
unfolding low_digits
rev-low_digits zero n base out = refl
rev-low_digits (suc rounds) n base out = elim (Bool-cases (n / base == 0)) [
  | inl e ↦ rw e refl
  | inr e ↦
      let c = digit_char (n % base) in
      let front = rev (low_digits rounds (n / base) base) in
      rw e (append_assoc front (c ∷ []) out ∙ rev-low_digits rounds (n / base) base (c ∷ out))
]

digit_of-digit_char :
    (d : ℕ) → d < 36 → (is_alnum (digit_char d) ≡ true) × (digit_of (digit_char d) ≡ d)
unfolding is_alnum digit_of digit_char
digit_of-digit_char d h = (ground arith, ground arith)

scan_digit :
    (base d r : ℕ) (s : Text)
    → d < base
    → base ≤ 36
    → scan base (digit_char d ∷ s) r ≡ scan base s ((r * base + d) % u64)
unfolding scan
scan_digit base d r s lt le =
    let c = digit_of-digit_char d (omega arith) in
    let small : leb base d ≡ false = ground arith in rw (c.0, c.1, small) refl

halves :
    (n base : ℕ)
    → 2 ≤ base
    → (n / base * 2 ≤ n) × (n / base * base + n % base ≡ n) × (n % base < base)
halves n base two =
    let parts = div-add-mod' n base in
    (omega (arith, mul-le-mul_left (n / base) two, parts), parts, mod-lt n (omega arith))

-- Reading the digits of a number, in front of others, comes to the number.
pub scan-digits :
    (rounds n base : ℕ) (out : Text)
    → 2 ≤ base
    → base ≤ 36
    → n < 2 ^ rounds
    → n < u64
    → scan base (digits rounds n base out) 0 ≡ scan base out n
scan-digits zero n base out two top fits word = ap (scan base out) (omega arith)
scan-digits (suc rounds) n base out two top fits word =
    let h = halves n base two in
    elim (Bool-cases (n / base == 0)) [
      | inl e ↦
          let none : n / base ≡ 0 = ground arith in
          let all : (0 * base + n % base) % u64 ≡ n =
            ap (λ k. (k * base + n % base) % u64) (sym none)
            ∙ ap (λ k. k % u64) h.1
            ∙ mod-eq_of_lt word in
          rw e (scan_digit base (n % base) 0 out h.2 top ∙ ap (scan base out) all)
      | inr e ↦
          let all : (n / base * base + n % base) % u64 ≡ n =
            ap (λ k. k % u64) h.1 ∙ mod-eq_of_lt word in
          let c = digit_char (n % base) in
          let ih =
            scan-digits rounds (n / base) base (c ∷ out) two top (omega (arith, h.0))
              (omega (arith, h.0)) in
          rw e (ih ∙ scan_digit base (n % base) (n / base) out h.2 top ∙ ap (scan base out) all)
    ]

-- What a printer writes: characters that are no space, sign or prefix; the NUL behind the string
-- counts as one of them.
abbrev pub Plain : ℕ → ℕ → Type 0
Plain base c = (c ≡ 0) ⊎ ((48 ≤ c) × (c ≤ 57)) ⊎ ((97 ≤ c) × (c < 87 + base))

digit_char-Plain : (base d : ℕ) → d < base → Plain base (digit_char d)
unfolding digit_char
digit_char-Plain base d h = elim (Bool-cases (ltb d 10)) [
  | inl e ↦ inr (inl (ground arith, ground arith))
  | inr e ↦ inr (inr (ground arith, ground arith))
]

pub digits-Plain :
    (rounds n base : ℕ) (out : Text)
    → 2 ≤ base
    → All (Plain base) out
    → All (Plain base) (digits rounds n base out)
digits-Plain zero n base out two h = h
digits-Plain (suc rounds) n base out two h =
    let c = digit_char-Plain base (n % base) (mod-lt n (omega arith)) in
    elim (Bool-cases (n / base == 0)) [
      | inl e ↦ rw e (c, h)
      | inr e ↦ rw e (digits-Plain rounds (n / base) base (digit_char (n % base) ∷ out) two (c, h))
    ]

digits_keep : (rounds n base : ℕ) (out : Text) → length out ≤ length (digits rounds n base out)
digits_keep zero n base out = omega arith
digits_keep (suc rounds) n base out = elim (Bool-cases (n / base == 0)) [
  | inl e ↦ rw e (omega arith)
  | inr e ↦ rw e (omega (arith, digits_keep rounds (n / base) base (digit_char (n % base) ∷ out)))
]

-- At least one digit is printed.
pub digits_some : (rounds n base : ℕ) → 0 < length (digits (suc rounds) n base [])
digits_some rounds n base = elim (Bool-cases (n / base == 0)) [
  | inl e ↦ rw e (omega arith)
  | inr e ↦ rw e (omega (arith, digits_keep rounds (n / base) base (digit_char (n % base) ∷ [])))
]

-- A loop that has ended does not use the rounds that are left.
more_rounds :
    (rounds more n base : ℕ)
    → rounds ≤ more
    → 2 ≤ base
    → n < 2 ^ suc rounds
    → low_digits (suc more) n base ≡ low_digits (suc rounds) n base
unfolding low_digits
more_rounds zero more n base le two fits =
    let h = halves n base two in
    let last : (n / base == 0) ≡ true = ground (arith, h.0) in rw last refl
more_rounds (suc rounds) zero n base le two fits = absurd (omega arith)
more_rounds (suc rounds) (suc more) n base le two fits =
    let h = halves n base two in
    elim (Bool-cases (n / base == 0)) [
      | inl e ↦ rw e refl
      | inr e ↦ rw e (
          ap (λ t. digit_char (n % base) ∷ t)
            (more_rounds rounds more (n / base) base (omega arith) two (omega (arith, h.0))))
    ]

-- The digit loop ends within 64 rounds for every 64-bit number and base: more rounds change
-- nothing.
pub low_digits_end :
    (extra value base : ℕ)
    → value < u64
    → 2 ≤ base
    → low_digits (64 + extra) value base ≡ low_digits 64 value base
low_digits_end extra value base word two =
    ap (λ r. low_digits r value base) (omega arith)
    ∙ more_rounds 63 (63 + extra) value base (omega arith) two word
