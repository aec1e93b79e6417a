-- ===== src/Klog/Format/Bounds.antt =====
-- `klog_format_string` of kernel/klogs/private/format.c stays inside its buffer.
use ccoperating_system_x.Common.{
  ℕ, zero, suc, ◌+◌, ◌-◌, ◌%◌, ◌<◌, Bool, true, false, not, ◌&&◌, ◌||◌, ◌==◌, ltb, if◌then◌else◌,
  List, [], ◌∷◌, length, length-append, arith, Bool-cases, inl, inr,
}
use ccoperating_system_x.Text.Number.{Text, first, drop, uitoa64, itoa_signed}
use ccoperating_system_x.Klog.Format.{
  Outcome, written, failed, read_behind, out_of_rounds, Arg, Spec, put, put_if, pad, put_all,
  pad_before, put_char, put_text, put_number, put_hex, put_pointer, upper, read_spec, convert,
  format_loop, klog_format_string, next_number, next_text, width_of, extend,
}

either_way : {A : Type 0} (P : A → Type 0) (b : Bool) (x y : A) → P x → P y → P (if b then x else y)
either_way P true x y p q = p
either_way P false x y p q = q

-- There is a place for the NUL behind the output.
module _ (size : ℕ) where
  abbrev Fits : Text → Type 0
  Fits out = length out < size

  -- The same of a conversion's output.
  abbrev OutFits : Text × List Arg → Type 0
  OutFits r = Fits r.0

  put_if-Fits : (out : Text) (c : ℕ) → Fits out → Fits (put_if size out c)
  unfolding put_if
  put_if-Fits out c h = elim (Bool-cases (ltb (length out) (size - 1))) [
    | inl e ↦ rw e (ground (arith, length-append out (c ∷ [])))
    | inr e ↦ rw e h
  ]

  pad-Fits : (n : ℕ) (out : Text) (c : ℕ) → Fits out → Fits (pad n size out c)
  unfolding pad
  pad-Fits zero out c h = h
  pad-Fits (suc n) out c h = pad-Fits n (put_if size out c) c (put_if-Fits out c h)

  put_all-Fits : (out s : Text) → Fits out → Fits (put_all size out s)
  unfolding put_all
  put_all-Fits out [] h = h
  put_all-Fits out (c ∷ s) h = put_all-Fits (put_if size out c) s (put_if-Fits out c h)

  -- A write at the start of a round, which the loop has tested.
  module _ (out : Text) (room : length out + 1 < size) where
    put-Fits : (c : ℕ) → Fits (put out c)
    put-Fits c = omega (arith, length-append out (c ∷ []), room)

    put_char-Fits : (spec : Spec) (c : ℕ) → Fits (put_char size spec out c)
    unfolding put_char
    put_char-Fits spec c =
        either_way Fits (ltb 1 spec.width) _ _
          (either_way Fits spec.left_align _ _
            (pad-Fits (spec.width - 1) (put out c) b' ' (put-Fits c))
            (put_if-Fits (pad (spec.width - 1) size out b' ') c
              (pad-Fits (spec.width - 1) out b' ' (omega (arith, room)))))
          (put-Fits c)

    put_text-Fits : (spec : Spec) (s : Text) → Fits (put_text size spec out s)
    unfolding put_text
    put_text-Fits spec s =
        let fits : Fits out = omega (arith, room) in
        either_way Fits (ltb (length s) spec.width && not spec.left_align) _ _
          (put_all-Fits (pad (spec.width - length s) size out b' ') s
            (pad-Fits (spec.width - length s) out b' ' fits))
          (either_way Fits (ltb (length s) spec.width) _ _
            (pad-Fits (spec.width - length s) (put_all size out s) b' ' (put_all-Fits out s fits))
            (put_all-Fits out s fits))

    before-Fits : (spec : Spec) (len : ℕ) → Fits (pad_before size spec len out)
    before-Fits spec len =
        let fits : Fits out = omega (arith, room) in
        let c = if spec.pad_with_zero then b'0' else b' ' in
        either_way Fits (ltb len spec.width && not spec.left_align)
          (pad (spec.width - len) size out c) out (pad-Fits (spec.width - len) out c fits) fits

    put_number-Fits : (spec : Spec) (s : Text) → Fits (put_number size spec out s)
    unfolding put_number
    put_number-Fits spec s =
        let len = length s in
        let shown = put_all size (pad_before size spec len out) s in
        let fits = put_all-Fits (pad_before size spec len out) s (before-Fits spec len) in
        either_way Fits (ltb len spec.width && spec.left_align)
          (pad (spec.width - len) size shown b' ') shown
          (pad-Fits (spec.width - len) shown b' ' fits) fits

    put_hex-Fits : (spec : Spec) (s : Text) → Fits (put_hex size spec out s)
    unfolding put_hex
    put_hex-Fits spec s =
        let right = record spec { left_align = false } in
        put_all-Fits (pad_before size right (length s) out) s (before-Fits right (length s))

    put_pointer-Fits : (s : Text) → Fits (put_pointer size out s)
    unfolding put_pointer
    put_pointer-Fits s =
        let zero_x = put_if size (put out b'0') b'x' in
        put_all-Fits zero_x s (put_if-Fits (put out b'0') b'x' (put-Fits b'0'))

    convert-Fits : (spec : Spec) (c : ℕ) (args : List Arg) → OutFits (convert size spec c args out)
    unfolding convert
    convert-Fits spec c args =
        let n = next_number (width_of spec.is_long) args in
        let t = next_text args in
        let d = itoa_signed (extend spec.is_long n.0) 10 in
        either_way OutFits (c == b'%') _ _ (put-Fits b'%') (
          either_way OutFits (c == b'c') _ _ (put_char-Fits spec ((next_number 32 args).0 % 256)) (
            either_way OutFits (c == b's') _ _ (put_text-Fits spec t.0) (
              either_way OutFits (c == b'd' || c == b'i') _ _ (put_number-Fits spec d) (
                either_way OutFits (c == b'u') _ _ (put_number-Fits spec (uitoa64 n.0 10)) (
                  either_way OutFits (c == b'x') _ _ (put_hex-Fits spec (uitoa64 n.0 16)) (
                    either_way OutFits (c == b'X') _ _ (put_hex-Fits spec (upper (uitoa64 n.0 16)))
                      (either_way OutFits (c == b'p') _ _
                        (put_pointer-Fits (uitoa64 (next_number 64 args).0 16)) (put-Fits c))))))))

  -- The output of a call, if there is one.
  abbrev pub Bounded : Outcome → Type 0
  Bounded (written out) = length out < size
  Bounded failed = Unit
  Bounded read_behind = Unit
  Bounded out_of_rounds = Unit

  format_loop-Bounded :
      (fuel : ℕ) (p : Text) (args : List Arg) (out : Text)
      → Fits out
      → Bounded (format_loop fuel size p args out)
  unfolding format_loop
  format_loop-Bounded zero p args out h = tt
  format_loop-Bounded (suc fuel) [] args out h = h
  format_loop-Bounded (suc fuel) (c ∷ p) args out h =
      elim (Bool-cases (ltb (length out) (size - 1))) [
        | inr e ↦ rw e h
        | inl e ↦
            let room : length out + 1 < size = ground arith in
            let spec = read_spec p in
            let step = convert size spec.0 (first spec.1) args out in
            let plain = c == b'%' in
            let next : Text × List Arg = if plain then step else (put out c, args) in
            let fits : OutFits next =
              either_way OutFits plain step (put out c, args)
                (convert-Fits out room spec.0 (first spec.1) args) (put-Fits out room c) in
            let rest =
              format_loop-Bounded fuel (if plain then drop 1 spec.1 else p) next.1 next.0 fits in
            rw e (
              either_way Bounded (plain && length p == 0) _ _ (put-Fits out room b'%')
                (either_way Bounded (plain && length spec.1 == 0) _ _ tt rest))
      ]

-- Whatever the format and the arguments are, the output of a call with a buffer of `size` bytes is
-- shorter than `size`, so that the NUL behind it is inside the buffer too.
pub klog_format_string-Bounded :
    (size : ℕ) (format : Text) (args : List Arg)
    → Bounded size (klog_format_string size format args)
unfolding klog_format_string
klog_format_string-Bounded size format args = elim (Bool-cases (size == 0)) [
  | inl e ↦ rw e tt
  | inr e ↦ rw e (format_loop-Bounded size (length format + 1) format args [] (ground arith))
]
