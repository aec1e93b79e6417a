-- ===== src/Klog/Format.antt =====
-- `klog_format_string` of kernel/klogs/private/format.c. The output is the list of the characters
-- written so far, so that its length is `pos`; the arguments are a list of numbers of 64 bits and of
-- strings, where `none` is NULL. A width is a number without a bound.
pub mod Bounds
pub mod Rounds
use ccoperating_system_x.Common.{
  ℕ, zero, suc, ◌+◌, ◌-◌, ◌*◌, ◌/◌, ◌%◌, ◌^◌, Bool, true, false, not, ◌&&◌, ◌||◌, ◌==◌, ltb, leb,
  if◌then◌else◌, Option, none, some, List, [], ◌∷◌, ◌++◌, length,
}
use ccoperating_system_x.Text.Number.{Text, u64, first, drop, isdigit, uitoa64, itoa_signed}

pub data Arg : Type 0 where
  number : ℕ → Arg
  text : Option Text → Arg

-- `va_arg` for a number of a width, and for a string; a wrong argument is 0 or NULL.
abbrev pub next_number : ℕ → List Arg → ℕ × List Arg
next_number width [] = (0, [])
next_number width (number n ∷ args) = (n % 2 ^ width, args)
next_number width (text s ∷ args) = (0, args)

-- `(null)`
abbrev pub null_text : Text
null_text = b'(' ∷ b'n' ∷ b'u' ∷ b'l' ∷ b'l' ∷ b')' ∷ []

abbrev pub next_text : List Arg → Text × List Arg
next_text [] = (null_text, [])
next_text (number n ∷ args) = (null_text, args)
next_text (text none ∷ args) = (null_text, args)
next_text (text (some s) ∷ args) = (s, args)

abbrev pub put : Text → ℕ → Text
put out c = out ++ c ∷ []

-- A write under the test `pos < size - 1`.
unfoldable pub put_if : ℕ → Text → ℕ → Text
put_if size out c = if ltb (length out) (size - 1) then put out c else out

unfoldable pub pad : ℕ → ℕ → Text → ℕ → Text
unfolding put_if
pad zero size out c = out
pad (suc n) size out c = pad n size (put_if size out c) c

unfoldable pub put_all : ℕ → Text → Text → Text
unfolding put_if
put_all size out [] = out
put_all size out (c ∷ s) = put_all size (put_if size out c) s

-- What stands between the `%` and the conversion.
pub record Spec : Type 0 where
  pub left_align : Bool
  pub pad_with_zero : Bool
  pub width : ℕ
  pub is_long : Bool

abbrev pub no_spec : Spec
no_spec = record { left_align = false; pad_with_zero = false; width = 0; is_long = false }

unfoldable pub read_flags : Text → Spec × Text
read_flags p =
    if first p == b'-'
    then (record no_spec { left_align = true }, drop 1 p)
    else if first p == b'0'
    then (record no_spec { pad_with_zero = true }, drop 1 p)
    else (no_spec, p)

unfoldable pub read_width : Spec → Text → Spec × Text
read_width spec [] = (spec, [])
read_width spec (c ∷ p) =
    let rest = read_width (record spec { width = spec.width * 10 + (c - b'0') }) p in
    if leb b'0' c && leb c b'9' then rest else (spec, c ∷ p)

unfoldable pub read_length : Spec × Text → Spec × Text
read_length (spec, p) =
    if first p == b'l'
    then (record spec { is_long = true }, if first (drop 1 p) == b'l' then drop 2 p else drop 1 p)
    else (spec, p)

unfoldable pub read_spec : Text → Spec × Text
unfolding read_flags read_width read_length
read_spec p = let flags = read_flags p in read_length (read_width flags.0 flags.1)

-- The padding in front of a field and behind it.
abbrev pub pad_before : ℕ → Spec → ℕ → Text → Text
pad_before size spec len out =
    if ltb len spec.width && not spec.left_align
    then pad (spec.width - len) size out (if spec.pad_with_zero then b'0' else b' ')
    else out

abbrev pub pad_after : ℕ → Spec → ℕ → Text → Text
pad_after size spec len out =
    if ltb len spec.width && spec.left_align then pad (spec.width - len) size out b' ' else out

unfoldable pub put_char : ℕ → Spec → Text → ℕ → Text
unfolding pad put_if
put_char size spec out c =
    if ltb 1 spec.width
    then (if spec.left_align
        then pad (spec.width - 1) size (put out c) b' '
        else put_if size (pad (spec.width - 1) size out b' ') c)
    else put out c

unfoldable pub put_text : ℕ → Spec → Text → Text → Text
unfolding pad put_all
put_text size spec out s =
    let short = ltb (length s) spec.width in
    if short && not spec.left_align
    then put_all size (pad (spec.width - length s) size out b' ') s
    else if short
    then pad (spec.width - length s) size (put_all size out s) b' '
    else put_all size out s

-- A decimal number, printed to the format buffer.
unfoldable pub put_number : ℕ → Spec → Text → Text → Text
unfolding pad put_all
put_number size spec out s =
    let len = length s in pad_after size spec len (put_all size (pad_before size spec len out) s)

abbrev pub upper : Text → Text
upper [] = []
upper (c ∷ s) = (if leb b'a' c && leb c b'f' then c - b'a' + b'A' else c) ∷ upper s

-- A hexadecimal number, which is never aligned to the left.
unfoldable pub put_hex : ℕ → Spec → Text → Text → Text
unfolding pad put_all
put_hex size spec out s =
    put_all size (pad_before size (record spec { left_align = false }) (length s) out) s

unfoldable pub put_pointer : ℕ → Text → Text → Text
unfolding put_if put_all
put_pointer size out s = put_all size (put_if size (put out b'0') b'x') s

-- A signed argument: an `int` is extended to 64 bits.
abbrev pub extend : Bool → ℕ → ℕ
extend is_long n = if not is_long && leb (2 ^ 31) n then n + (u64 - 2 ^ 32) else n

abbrev pub width_of : Bool → ℕ
width_of is_long = if is_long then 64 else 32

-- The `switch` on the conversion.
unfoldable pub convert : ℕ → Spec → ℕ → List Arg → Text → Text × List Arg
unfolding put_char put_text put_number put_hex put_pointer
convert size spec c args out =
    let n = next_number (width_of spec.is_long) args in
    if c == b'%'
    then (put out b'%', args)
    else if c == b'c'
    then (put_char size spec out ((next_number 32 args).0 % 256), (next_number 32 args).1)
    else if c == b's'
    then (put_text size spec out (next_text args).0, (next_text args).1)
    else if c == b'd' || c == b'i'
    then (put_number size spec out (itoa_signed (extend spec.is_long n.0) 10), n.1)
    else if c == b'u'
    then (put_number size spec out (uitoa64 n.0 10), n.1)
    else if c == b'x'
    then (put_hex size spec out (uitoa64 n.0 16), n.1)
    else if c == b'X'
    then (put_hex size spec out (upper (uitoa64 n.0 16)), n.1)
    else if c == b'p'
    then (put_pointer size out (uitoa64 (next_number 64 args).0 16), (next_number 64 args).1)
    else (put out c, args)

-- What a call comes to: an output, -1, a read behind the end of the format, or a loop that needs
-- more rounds than it was given.
pub data Outcome : Type 0 where
  written : Text → Outcome
  failed read_behind out_of_rounds : Outcome

-- The loop, with a bound on its rounds.
unfoldable pub format_loop : ℕ → ℕ → Text → List Arg → Text → Outcome
unfolding convert read_spec
format_loop zero size p args out = out_of_rounds
format_loop (suc fuel) size [] args out = written out
format_loop (suc fuel) size (c ∷ p) args out =
    let spec = read_spec p in
    let step = convert size spec.0 (first spec.1) args out in
    let plain = c == b'%' in
    let next = if plain then step else (put out c, args) in
    let rest = format_loop fuel size (if plain then drop 1 spec.1 else p) next.1 next.0 in
    if not (ltb (length out) (size - 1))
    then written out
    else if plain && length p == 0
    then written (put out b'%')
    else if plain && length spec.1 == 0
    then read_behind
    else rest

-- `klog_format_string`, without the NUL that it writes behind the output. A round uses up a character
-- of the format at least.
unfoldable pub klog_format_string : ℕ → Text → List Arg → Outcome
unfolding format_loop
klog_format_string size format args =
    if size == 0 then failed else format_loop (length format + 1) size format args []
