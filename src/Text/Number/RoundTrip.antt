-- ===== src/Text/Number/RoundTrip.antt =====
-- What the printers of kernel/base/strhelpers.c write, its parsers read back.
use ccoperating_system_x.Common.{
  ℕ, ◌-◌, ◌^◌, ◌≤◌, ◌<◌, ◌≡◌, ◌≢◌, refl, sym, ap, ◌∙◌, false, ◌&&◌, ◌==◌, leb, if◌then◌else◌, [],
  ◌∷◌, ◌++◌, append-nil, Bool-cases, inl, inr, arith, All, get_or-All, get_or, length,
}
use ccoperating_system_x.Text.Number.{
  Text, u64, isspace, first, skip_spaces, is_hex_prefix, detect_base, scan, end_of, strtoul, strtol,
  negate, low_digits, bad_base, reverse_str, uitoa64, print_signed, itoa_signed,
}
use ccoperating_system_x.Text.Number.Reverse.{rev, reverse_str_lem}
use ccoperating_system_x.Text.Number.Print.{
  digits, rev-low_digits, scan-digits, Plain, digits-Plain, digits_some,
}

-- The printed text is its digits.
printed : (n base : ℕ) → reverse_str (low_digits 64 n base) ≡ digits 64 n base []
printed n base =
    reverse_str_lem (low_digits 64 n base)
    ∙ sym (append-nil (rev (low_digits 64 n base)))
    ∙ rev-low_digits 64 n base []

printed-Plain : (n base : ℕ) → 2 ≤ base → All (Plain base) (digits 64 n base [])
printed-Plain n base two = digits-Plain 64 n base [] two tt

-- Nothing of such a text is skipped.
module _ (base : ℕ) (s : Text) (two : 2 ≤ base) (top : base ≤ 36) (plain : All (Plain base) s) where
  at : (i : ℕ) → Plain base (get_or s i 0)
  at i = get_or-All (Plain base) s i 0 plain (inl refl)

  no_sign : ((first s == 43) ≡ false) × ((first s == 45) ≡ false)
  no_sign = (ground (arith, at 0), ground (arith, at 0))

  no_prefix : detect_base s base ≡ (base, s)
  unfolding detect_base
  no_prefix =
      let given : (base == 0) ≡ false = ground arith in
      let none : (base == 16 && is_hex_prefix s) ≡ false = ground (arith, at 1) in
      rw (given, none) refl

no_space : (base : ℕ) (s : Text) → All (Plain base) s → skip_spaces s ≡ s
unfolding skip_spaces isspace
no_space base [] h = refl
no_space base (c ∷ s) h = let other : isspace c ≡ false = ground (arith, h.0) in rw other refl

-- A text that is read to its end.
end_of_all : (s : Text) → end_of s s [] ≡ []
end_of_all [] = refl
end_of_all (c ∷ s) = ground arith

-- Every 64-bit number that `uitoa64` prints in a base from 2 to 36 is read back by `strtoul` in
-- that base, to the end of the text.
pub strtoul-uitoa64 :
    (value base : ℕ)
    → value < u64
    → 2 ≤ base
    → base ≤ 36
    → strtoul (uitoa64 value base) base ≡ (value, [])
unfolding uitoa64 strtoul
strtoul-uitoa64 value base word two top =
    let good : bad_base base ≡ false = ground arith in
    let s = digits 64 value base [] in
    let plain = printed-Plain value base two in
    let sign = (no_sign base s two top plain).0 in
    let read = scan-digits 64 value base [] two top word word in
    rw (good, printed value base, no_space base s plain, sign, no_prefix base s two top plain, read)
      (ap (λ k. (value, k)) (end_of_all s))

rev-snoc : (s : Text) (c : ℕ) → rev (s ++ c ∷ []) ≡ c ∷ rev s
rev-snoc [] c = refl
rev-snoc (d ∷ s) c = ap (λ t. t ++ d ∷ []) (rev-snoc s c)

printed_negative :
    (n base : ℕ) → reverse_str (low_digits 64 n base ++ 45 ∷ []) ≡ 45 ∷ digits 64 n base []
printed_negative n base =
    reverse_str_lem (low_digits 64 n base ++ 45 ∷ [])
    ∙ rev-snoc (low_digits 64 n base) 45
    ∙ ap (λ t. 45 ∷ t) (sym (reverse_str_lem (low_digits 64 n base)) ∙ printed n base)

itoa_signed_lem :
    (value : ℕ)
    → itoa_signed value 10
      ≡ (if leb (2 ^ 63) value then 45 ∷ digits 64 (u64 - value) 10 [] else digits 64 value 10 [])
unfolding itoa_signed print_signed
itoa_signed_lem value = elim (Bool-cases (leb (2 ^ 63) value)) [
  | inl e ↦ rw e (printed_negative (u64 - value) 10)
  | inr e ↦ rw e (printed value 10)
]

-- The parser of signed numbers at such a text, with a minus in front and without.
module _ (base : ℕ) (s : Text) (two : 2 ≤ base) (top : base ≤ 36) (plain : All (Plain base) s) where
  strtol-negative :
      (n : ℕ) → 0 < length s → scan base s 0 ≡ (n, []) → strtol (45 ∷ s) base ≡ (negate n, [])
  unfolding strtol skip_spaces isspace
  strtol-negative n some_digit read = rw (no_prefix base s two top plain, read) (ground arith)

  strtol-positive : (n : ℕ) → scan base s 0 ≡ (n, []) → strtol s base ≡ (n, [])
  unfolding strtol
  strtol-positive n read =
      let sign = no_sign base s two top plain in
      rw (no_space base s plain, sign.0, sign.1, no_prefix base s two top plain, read)
        (ap (λ k. (n, k)) (end_of_all s))

scan-all :
    (n base : ℕ) → n < u64 → 2 ≤ base → base ≤ 36 → scan base (digits 64 n base []) 0 ≡ (n, [])
unfolding scan
scan-all n base word two top = scan-digits 64 n base [] two top word word

signed_text :
    (value base : ℕ)
    → value < u64
    → value ≢ 2 ^ 63
    → 2 ≤ base
    → base ≤ 36
    → strtol
        (if leb (2 ^ 63) value
          then 45 ∷ digits 64 (u64 - value) base []
          else digits 64 value base [])
        base
      ≡ (value, [])
signed_text value base word least two top = elim (Bool-cases (leb (2 ^ 63) value)) [
  | inl e ↦
      let back : negate (u64 - value) ≡ value = ground arith in
      let less : u64 - value < u64 = ground arith in
      rw e (
        strtol-negative base (digits 64 (u64 - value) base []) two top
          (printed-Plain (u64 - value) base two) (u64 - value) (digits_some 63 (u64 - value) base)
          (scan-all (u64 - value) base less two top)
        ∙ ap (λ k. (k, [])) back)
  | inr e ↦ rw e (
      strtol-positive base (digits 64 value base []) two top (printed-Plain value base two) value
        (scan-all value base word two top))
]

-- Every signed 64-bit number but the least, whose negation overflows, is read back by `strtol` from
-- what `itoa_signed` prints in base 10.
pub strtol-itoa_signed :
    (value : ℕ) → value < u64 → value ≢ 2 ^ 63 → strtol (itoa_signed value 10) 10 ≡ (value, [])
strtol-itoa_signed value word least =
    ap (λ t. strtol t 10) (itoa_signed_lem value)
    ∙ signed_text value 10 word least (omega arith) (omega arith)
