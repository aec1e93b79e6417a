-- ===== src/Klog/Tests.antt =====
-- Runs of the formatter.
use ccoperating_system_x.Common.{◌≡◌, refl, [], ◌∷◌, arith}
use ccoperating_system_x.Text.Number.{Text, uitoa64, low_digits, reverse_str, swap_ends, digit_char}
use ccoperating_system_x.Klog.Format.{
  written, read_behind, number, klog_format_string, format_loop, convert, read_spec, read_flags,
  read_width, read_length, put_if, put_all, pad, put_hex,
}
use ccoperating_system_x.Klog.Format.Bounds.{Bounded, klog_format_string-Bounded}
use ccoperating_system_x.Klog.Format.Rounds.{
  Complete, end, plain, conversion, klog_format_string-ends,
}

-- `%04x!` at 255
abbrev hex_format : Text
hex_format = b'%' ∷ b'0' ∷ b'4' ∷ b'x' ∷ b'!' ∷ []

hex_255 :
    klog_format_string 16 hex_format (number 255 ∷ [])
    ≡ written (b'0' ∷ b'0' ∷ b'f' ∷ b'f' ∷ b'!' ∷ [])
unfolding klog_format_string format_loop convert read_spec read_flags read_width read_length put_hex
    put_if put_all pad uitoa64 low_digits reverse_str swap_ends digit_char
hex_255 = refl

-- A format that ends inside a conversion is read behind its end.
unfinished : klog_format_string 16 (b'%' ∷ b'5' ∷ []) [] ≡ read_behind
unfolding klog_format_string format_loop convert read_spec read_flags read_width read_length
unfinished = refl

klog_format_string-Bounded_example : Bounded 4 (klog_format_string 4 hex_format (number 255 ∷ []))
klog_format_string-Bounded_example = klog_format_string-Bounded 4 hex_format (number 255 ∷ [])

hex_format-Complete : Complete hex_format
unfolding read_spec read_flags read_width read_length
hex_format-Complete = conversion (omega arith) (plain refl end)

klog_format_string-ends_example :
    (out : Text) × (klog_format_string 4 hex_format (number 255 ∷ []) ≡ written out)
klog_format_string-ends_example =
    klog_format_string-ends 4 hex_format (number 255 ∷ []) (omega arith) hex_format-Complete
