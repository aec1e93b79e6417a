-- ===== src/Text/Number.antt =====
-- kernel/base/strhelpers.c: numbers as text. A signed number is its two's complement, of 64 bits or
-- of 32. A digit loop takes 64 rounds, which a 64-bit number never uses up.
pub mod Reverse
pub mod Print
pub mod RoundTrip
use ccoperating_system_x.Common.{
  ℕ, zero, suc, ◌+◌, ◌-◌, ◌*◌, ◌/◌, ◌%◌, ◌^◌, Bool, true, false, not, ◌&&◌, ◌||◌, ◌==◌, ltb, leb,
  if◌then◌else◌, Option, none, some, List, [], ◌∷◌, ◌++◌, get_or, set, length,
}

abbrev pub Text : Type 0
Text = List ℕ

abbrev pub u64 : ℕ
u64 = 2 ^ 64

unfoldable pub isspace : ℕ → Bool
isspace ch = ch == 32 || (leb 9 ch && leb ch 13)

unfoldable pub isdigit : ℕ → Bool
isdigit ch = leb 48 ch && leb ch 57

-- `*s`, which is the NUL at the end of the string.
abbrev pub first : Text → ℕ
first s = get_or s 0 0

unfoldable pub skip_spaces : Text → Text
unfolding isspace
skip_spaces [] = []
skip_spaces (c ∷ s) = let rest = skip_spaces s in if isspace c then rest else c ∷ s

abbrev pub drop : ℕ → Text → Text
drop zero s = s
drop (suc n) [] = []
drop (suc n) (c ∷ s) = drop n s

abbrev pub is_hex_prefix : Text → Bool
is_hex_prefix s = first s == 48 && (get_or s 1 0 == 120 || get_or s 1 0 == 88)

-- The base, and the string behind its prefix.
unfoldable pub detect_base : Text → ℕ → ℕ × Text
detect_base s base =
    if base == 0
    then (if is_hex_prefix s
        then (16, drop 2 s)
        else if first s == 48
        then (8, drop 1 s)
        else (10, s))
    else if base == 16 && is_hex_prefix s
    then (16, drop 2 s)
    else (base, s)

-- The characters that have a value, and the value.
unfoldable pub is_alnum : ℕ → Bool
is_alnum c = (leb 48 c && leb c 57) || (leb 97 c && leb c 122) || (leb 65 c && leb c 90)

unfoldable pub digit_of : ℕ → ℕ
digit_of c = if leb c 57 then c - 48 else if leb 97 c then c - 97 + 10 else c - 65 + 10

-- The loop over the digits, in 64 bits: the number, and what follows its last digit.
unfoldable pub scan : ℕ → Text → ℕ → ℕ × Text
unfolding is_alnum digit_of
scan base [] result = (result, [])
scan base (c ∷ s) result =
    let rest = scan base s ((result * base + digit_of c) % u64) in
    if not (is_alnum c) || leb base (digit_of c) then (result, c ∷ s) else rest

-- What `*endptr` is set to: the string itself where no character was a digit.
abbrev pub end_of : Text → Text → Text → Text
end_of nptr start rest = if length rest == length start then nptr else rest

unfoldable pub strtoul : Text → ℕ → ℕ × Text
unfolding skip_spaces detect_base scan
strtoul nptr base =
    let s = skip_spaces nptr in
    let unsigned = if first s == 43 then drop 1 s else s in
    let start = detect_base unsigned base in
    let r = scan start.0 start.1 0 in (r.0, end_of nptr start.1 r.1)

-- `-x` in 64 bits
abbrev pub negate : ℕ → ℕ
negate x = (u64 - x) % u64

unfoldable pub strtol : Text → ℕ → ℕ × Text
unfolding skip_spaces detect_base scan
strtol nptr base =
    let s = skip_spaces nptr in
    let neg = first s == 45 in
    let unsigned = if neg || first s == 43 then drop 1 s else s in
    let start = detect_base unsigned base in
    let r = scan start.0 start.1 0 in (if neg then negate r.0 else r.0, end_of nptr start.1 r.1)

unfoldable pub strtoll : Text → ℕ → ℕ × Text
unfolding strtol
strtoll = strtol

-- `atoi`: the low 32 bits.
unfoldable pub atoi : Text → ℕ
unfolding strtol
atoi nptr = (strtol nptr 10).0 % 2 ^ 32

-- The loop of `reverse_str`, with the rounds that are left.
unfoldable pub swap_ends : ℕ → Text → ℕ → ℕ → Text
swap_ends zero str i j = str
swap_ends (suc rounds) str i j =
    let swapped = set (set str i (get_or str j 0)) j (get_or str i 0) in
    let rest = swap_ends rounds swapped (i + 1) (j - 1) in if ltb i j then rest else str

unfoldable pub reverse_str : Text → Text
unfolding swap_ends
reverse_str str = swap_ends (length str) str 0 (length str - 1)

unfoldable pub digit_char : ℕ → ℕ
digit_char digit = if ltb digit 10 then 48 + digit else 97 + digit - 10

-- The `do` loop of the printers: the digits from the last to the first.
unfoldable pub low_digits : ℕ → ℕ → ℕ → Text
unfolding digit_char
low_digits zero uval base = []
low_digits (suc rounds) uval base =
    let rest = low_digits rounds (uval / base) base in
    digit_char (uval % base) ∷ (if uval / base == 0 then [] else rest)

abbrev pub bad_base : ℕ → Bool
bad_base base = ltb base 2 || ltb 36 base

unfoldable pub uitoa64 : ℕ → ℕ → Text
unfolding low_digits reverse_str
uitoa64 value base = if bad_base base then [] else reverse_str (low_digits 64 value base)

unfoldable pub uitoa : ℕ → ℕ → Text
unfolding low_digits reverse_str
uitoa value base = if bad_base base then [] else reverse_str (low_digits 64 value base)

-- The printers of signed numbers, of `width` bits.
unfoldable pub print_signed : ℕ → ℕ → ℕ → Text
unfolding low_digits reverse_str
print_signed width value base =
    let neg = leb (2 ^ (width - 1)) value && base == 10 in
    let uval = if neg then 2 ^ width - value else value in
    let digits = low_digits 64 uval base in
    if bad_base base then [] else reverse_str (if neg then digits ++ 45 ∷ [] else digits)

unfoldable pub itoa : ℕ → ℕ → Text
unfolding print_signed
itoa value base = print_signed 32 value base

unfoldable pub itoa_signed : ℕ → ℕ → Text
unfolding print_signed
itoa_signed value base = print_signed 64 value base
