-- ===== src/Driver/Keyboard.antt =====
-- kernel/driver/keyboard/keyboard.c: what an interrupt of the keyboard does, and the readers. The
-- answers of the two ports are arguments; a C table that is initialised in part is filled up by
-- zeros.
pub mod Queue
use ccoperating_system_x.Common.{
  ℕ, zero, suc, ◌+◌, ◌%◌, ◌^◌, Bool, true, false, not, ◌&&◌, ◌||◌, Option, none, some, List, [],
  ◌∷◌, ◌==◌, leb, get_or, if◌then◌else◌,
}
use ccoperating_system_x.Driver.Ring.{Ring, is_empty, is_full, write, read}

-- `KEYBOARD_BUFFER_SIZE`
abbrev pub buffer_size : ℕ
buffer_size = 256

pub record Keyboard : Type 0 where
  pub buffer : Ring
  pub shift_pressed : Bool
  pub caps_lock : Bool
  pub invocation_count : ℕ

abbrev pub scancode_to_ascii_table : List ℕ
scancode_to_ascii_table =
    0 ∷ 0 ∷ 49 ∷ 50 ∷ 51 ∷ 52 ∷ 53 ∷ 54 ∷ 55 ∷ 56 ∷ 57 ∷ 48 ∷ 45 ∷ 61 ∷ 8 ∷ 9 ∷ 113 ∷ 119 ∷ 101
    ∷ 114 ∷ 116 ∷ 121 ∷ 117 ∷ 105 ∷ 111 ∷ 112 ∷ 91 ∷ 93 ∷ 10 ∷ 0 ∷ 97 ∷ 115 ∷ 100 ∷ 102 ∷ 103 ∷ 104
    ∷ 106 ∷ 107 ∷ 108 ∷ 59 ∷ 39 ∷ 96 ∷ 0 ∷ 92 ∷ 122 ∷ 120 ∷ 99 ∷ 118 ∷ 98 ∷ 110 ∷ 109 ∷ 44 ∷ 46 ∷ 47
    ∷ 0 ∷ 42 ∷ 0 ∷ 32 ∷ 0 ∷ 0 ∷ 0 ∷ 0 ∷ 0 ∷ 0 ∷ 0 ∷ 0 ∷ 0 ∷ 0 ∷ 0 ∷ 0 ∷ 0 ∷ 0 ∷ 0 ∷ 0 ∷ 0 ∷ 0 ∷ 0
    ∷ 0 ∷ 0 ∷ 0 ∷ 0 ∷ 0 ∷ 0 ∷ 0 ∷ 0 ∷ 0 ∷ 0 ∷ 0 ∷ 0 ∷ 0 ∷ 0 ∷ 0 ∷ 0 ∷ 0 ∷ 0 ∷ 0 ∷ 0 ∷ 0 ∷ 0 ∷ 0 ∷ 0
    ∷ 0 ∷ 0 ∷ 0 ∷ 0 ∷ 0 ∷ 0 ∷ 0 ∷ 0 ∷ 0 ∷ 0 ∷ 0 ∷ 0 ∷ 45 ∷ 0 ∷ 0 ∷ 0 ∷ 43 ∷ 0 ∷ 0 ∷ 0 ∷ 0 ∷ 0 ∷ 0
    ∷ 0 ∷ 0 ∷ 0 ∷ 0 ∷ []

abbrev pub scancode_to_ascii_shifted : List ℕ
scancode_to_ascii_shifted =
    0 ∷ 0 ∷ 33 ∷ 64 ∷ 35 ∷ 36 ∷ 37 ∷ 94 ∷ 38 ∷ 42 ∷ 40 ∷ 41 ∷ 95 ∷ 43 ∷ 8 ∷ 9 ∷ 81 ∷ 87 ∷ 69 ∷ 82
    ∷ 84 ∷ 89 ∷ 85 ∷ 73 ∷ 79 ∷ 80 ∷ 123 ∷ 125 ∷ 10 ∷ 0 ∷ 65 ∷ 83 ∷ 68 ∷ 70 ∷ 71 ∷ 72 ∷ 74 ∷ 75 ∷ 76
    ∷ 58 ∷ 34 ∷ 126 ∷ 0 ∷ 124 ∷ 90 ∷ 88 ∷ 67 ∷ 86 ∷ 66 ∷ 78 ∷ 77 ∷ 60 ∷ 62 ∷ 63 ∷ 0 ∷ 42 ∷ 0 ∷ 32
    ∷ 0 ∷ 0 ∷ 0 ∷ 0 ∷ 0 ∷ 0 ∷ 0 ∷ 0 ∷ 0 ∷ 0 ∷ 0 ∷ 0 ∷ 0 ∷ 0 ∷ 0 ∷ 0 ∷ 0 ∷ 0 ∷ 0 ∷ 0 ∷ 0 ∷ 0 ∷ 0 ∷ 0
    ∷ 0 ∷ 0 ∷ 0 ∷ 0 ∷ 0 ∷ 0 ∷ 0 ∷ 0 ∷ 0 ∷ 0 ∷ 0 ∷ 0 ∷ 0 ∷ 0 ∷ 0 ∷ 0 ∷ 0 ∷ 0 ∷ 0 ∷ 0 ∷ 0 ∷ 0 ∷ 0 ∷ 0
    ∷ 0 ∷ 0 ∷ 0 ∷ 0 ∷ 0 ∷ 0 ∷ 0 ∷ 45 ∷ 0 ∷ 0 ∷ 0 ∷ 43 ∷ 0 ∷ 0 ∷ 0 ∷ 0 ∷ 0 ∷ 0 ∷ 0 ∷ 0 ∷ 0 ∷ 0 ∷ []

unfoldable pub is_letter_scancode : ℕ → Bool
is_letter_scancode code = (leb 16 code && leb code 28) || (leb 30 code && leb code 38)

unfoldable pub scancode_to_ascii : Keyboard → ℕ → ℕ
unfolding is_letter_scancode
scancode_to_ascii kb code =
    if leb 128 code
    then 0
    else if (if kb.caps_lock && is_letter_scancode code
        then not kb.shift_pressed
        else kb.shift_pressed)
    then get_or scancode_to_ascii_shifted code 0
    else get_or scancode_to_ascii_table code 0

-- The case of a key that is no modifier.
unfoldable pub store : Keyboard → ℕ → Keyboard
store kb c =
    if c == 0 || is_full buffer_size kb.buffer
    then kb
    else record kb { buffer = write buffer_size kb.buffer c }

-- The `switch` on the scancode without its break bit.
unfoldable pub press : Keyboard → ℕ → Bool → Keyboard
unfolding scancode_to_ascii store
press kb code is_break =
    if code == 42 || code == 54
    then record kb { shift_pressed = not is_break }
    else if code == 58
    then (if is_break then kb else record kb { caps_lock = not kb.caps_lock })
    else (if is_break then kb else store kb (scancode_to_ascii kb code))

-- `keyboard_irq_handler`, where the ports answer `status` and `scancode`.
unfoldable pub keyboard_irq_handler : Keyboard → ℕ → ℕ → Keyboard
unfolding press
keyboard_irq_handler kb status scancode =
    if status % 2 == 0
    then kb
    else let kb' = press kb (scancode % 128) (leb 128 scancode) in
      record kb' { invocation_count = (kb'.invocation_count + 1) % 2 ^ 64 }

unfoldable pub keyboard_haschar : Keyboard → Bool
keyboard_haschar kb = not (is_empty kb.buffer)

-- `keyboard_try_getchar`, at a pointer that is not NULL; `none` for -1.
unfoldable pub keyboard_try_getchar : Keyboard → Option ℕ × Keyboard
keyboard_try_getchar kb = if is_empty kb.buffer then (none, kb) else (
  some (read buffer_size kb.buffer).0,
  record kb { buffer = (read buffer_size kb.buffer).1 },
)
