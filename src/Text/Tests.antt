-- ===== src/Text/Tests.antt =====
-- Runs of the number printers and parsers.
use ccoperating_system_x.Common.{some, length, ◌+◌, ◌≡◌, refl, [], ◌∷◌, arith}
use ccoperating_system_x.Text.Number.{
  strtoul, uitoa64, itoa_signed, low_digits, reverse_str, swap_ends, print_signed, digit_char,
  skip_spaces, isspace, detect_base, scan, is_alnum, digit_of,
}
use ccoperating_system_x.Text.Strings.{strncpy, strtok_r, strspn, strcspn, one_of}
use ccoperating_system_x.Text.Strings.Laws.{strncpy_overruns, Token, strtok_r-Token}
use ccoperating_system_x.Text.Number.RoundTrip.{strtoul-uitoa64}

hex : uitoa64 48879 16 ≡ b'b' ∷ b'e' ∷ b'e' ∷ b'f' ∷ []
unfolding uitoa64 low_digits reverse_str swap_ends digit_char
hex = refl

minus_one : itoa_signed 18446744073709551615 10 ≡ b'-' ∷ b'1' ∷ []
unfolding itoa_signed print_signed low_digits reverse_str swap_ends digit_char
minus_one = refl

-- Spaces and a prefix are skipped, and the rest is given back.
octal : strtoul (b' ' ∷ b'0' ∷ b'1' ∷ b'7' ∷ b'8' ∷ []) 0 ≡ (15, b'8' ∷ [])
unfolding strtoul skip_spaces isspace detect_base scan is_alnum digit_of
octal = refl

strtoul-uitoa64_example : strtoul (uitoa64 48879 16) 16 ≡ (48879, [])
strtoul-uitoa64_example = strtoul-uitoa64 48879 16 (omega arith) (omega arith) (omega arith)

strncpy_overruns_example : length (strncpy (b'a' ∷ b'b' ∷ b'c' ∷ []) 2) ≡ 2 + 1
strncpy_overruns_example = strncpy_overruns (b'a' ∷ b'b' ∷ b'c' ∷ []) 2 (omega arith)

second_word :
    strtok_r (some (b' ' ∷ b'a' ∷ b'b' ∷ b' ' ∷ b'c' ∷ [])) (b' ' ∷ [])
    ≡ (some (b'a' ∷ b'b' ∷ []), some (b'c' ∷ []))
unfolding strtok_r strspn strcspn one_of
second_word = refl

strtok_r-Token_example :
    Token (b' ' ∷ b'a' ∷ []) (b' ' ∷ []) (strtok_r (some (b' ' ∷ b'a' ∷ [])) (b' ' ∷ []))
strtok_r-Token_example = strtok_r-Token (b' ' ∷ b'a' ∷ []) (b' ' ∷ [])
