-- ===== src/Driver/Keyboard/Queue.antt =====
-- The characters of kernel/driver/keyboard/keyboard.c that wait to be read.
use ccoperating_system_x.Common.{
  not, ℕ, ◌+◌, ◌%◌, ◌≤◌, ◌<◌, ◌≡◌, refl, Bool, true, false, ◌||◌, List, [], ◌∷◌, ◌++◌, ◌==◌, leb,
  if◌then◌else◌, length, arith, Bool-cases, inl, inr,
}
use ccoperating_system_x.Driver.Ring.{Ring, write}
use ccoperating_system_x.Driver.Ring.Fifo.{Holds, is_full_lem, write-Holds}
use ccoperating_system_x.Driver.Keyboard.{
  Keyboard, buffer_size, is_letter_scancode, scancode_to_ascii, store, press, keyboard_irq_handler,
}

-- The queue with one more character, if it is one and there is room.
abbrev pub accept : List ℕ → ℕ → List ℕ
accept q c = if c == 0 || length q == 255 then q else q ++ c ∷ []

-- What a key adds: nothing for a release, a shift or the caps lock.
abbrev pub typed : Keyboard → ℕ → Bool → ℕ
typed kb code is_break =
    if is_break || (code == 42 || code == 54) || code == 58 then 0 else scancode_to_ascii kb code

keep_or_add :
    (full : Bool) (rb : Ring) (q : List ℕ) (c : ℕ)
    → Holds buffer_size rb q
    → (full ≡ false → length q + 1 < buffer_size)
    → Holds buffer_size
        (if full then rb else write buffer_size rb c)
        (if full then q else q ++ c ∷ [])
keep_or_add true rb q c h room = h
keep_or_add false rb q c h room = write-Holds buffer_size rb q c h (room refl)

store_buffer :
    (kb : Keyboard) (q : List ℕ) (c : ℕ)
    → Holds buffer_size kb.buffer q
    → (store kb c).buffer
      ≡ (if c == 0 || length q == 255 then kb.buffer else write buffer_size kb.buffer c)
unfolding store
store_buffer kb q c h = ground (arith, is_full_lem buffer_size kb.buffer q h)

store_zero : (kb : Keyboard) → store kb 0 ≡ kb
unfolding store
store_zero kb = refl

store-Holds :
    (kb : Keyboard) (q : List ℕ) (c : ℕ)
    → Holds buffer_size kb.buffer q
    → Holds buffer_size (store kb c).buffer (accept q c)
unfolding store
store-Holds kb q c h =
    rw (store_buffer kb q c h)
      (keep_or_add (c == 0 || length q == 255) kb.buffer q c h (λ e. ground (arith, h.fits)))

press_which :
    (kb : Keyboard) (is_break shift caps : Bool) (c : ℕ)
    → (if shift
        then record kb { shift_pressed = not is_break }
        else if caps
        then (if is_break then kb else record kb { caps_lock = not kb.caps_lock })
        else (if is_break then kb else store kb c)).buffer
      ≡ (store kb (if is_break || shift || caps then 0 else c)).buffer
unfolding store
press_which kb true true caps c = refl
press_which kb false true caps c = refl
press_which kb true false true c = refl
press_which kb false false true c = refl
press_which kb true false false c = refl
press_which kb false false false c = refl

press-Holds :
    (kb : Keyboard) (q : List ℕ) (code : ℕ) (is_break : Bool)
    → Holds buffer_size kb.buffer q
    → Holds buffer_size (press kb code is_break).buffer (accept q (typed kb code is_break))
unfolding press
press-Holds kb q code is_break h =
    rw (press_which kb is_break (code == 42 || code == 54) (code == 58) (scancode_to_ascii kb code))
      (store-Holds kb q (typed kb code is_break) h)

-- An interrupt of the keyboard with data adds to the waiting characters the one that the key
-- stands for, unless it stands for none or 255 wait; without data it adds nothing.
pub keyboard_irq_handler-Holds :
    (kb : Keyboard) (q : List ℕ) (status scancode : ℕ)
    → Holds buffer_size kb.buffer q
    → Holds buffer_size
        (keyboard_irq_handler kb status scancode).buffer
        (if status % 2 == 0 then q else accept q (typed kb (scancode % 128) (leb 128 scancode)))
unfolding keyboard_irq_handler
keyboard_irq_handler-Holds kb q status scancode h =
    let p = press-Holds kb q (scancode % 128) (leb 128 scancode) h in
    elim (Bool-cases (status % 2 == 0)) [ inl e ↦ rw e h | inr e ↦ rw e p ]

-- The caps lock leaves the letters of the bottom row, Z to M, as they are.
pub caps_misses_bottom_row :
    (kb : Keyboard) (code : ℕ)
    → 44 ≤ code
    → code ≤ 50
    → scancode_to_ascii (record kb { caps_lock = true }) code
      ≡ scancode_to_ascii (record kb { caps_lock = false }) code
unfolding scancode_to_ascii is_letter_scancode
caps_misses_bottom_row kb code low high =
    let miss : is_letter_scancode code ≡ false = ground arith in ground (arith, miss)
