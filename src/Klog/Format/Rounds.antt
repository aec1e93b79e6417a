-- ===== src/Klog/Format/Rounds.antt =====
-- The loop of `klog_format_string` of kernel/klogs/private/format.c ends.
use ccoperating_system_x.Common.{
  ℕ, zero, suc, ◌+◌, ◌-◌, ◌*◌, ◌≤◌, ◌<◌, ◌≡◌, refl, Bool, true, false, not, ◌&&◌, ◌==◌, ltb, leb,
  if◌then◌else◌, List, [], ◌∷◌, length, arith, Bool-cases, inl, inr,
}
use ccoperating_system_x.Text.Number.{Text, first, drop}
use ccoperating_system_x.Text.Strings.Laws.{length-drop}
use ccoperating_system_x.Klog.Format.{
  Outcome, written, Arg, Spec, put, read_flags, read_width, read_length, read_spec, convert,
  format_loop, klog_format_string,
}

abbrev NotLonger : ℕ → Spec × Text → Type 0
NotLonger n r = length r.1 ≤ n

flags_shorten : (p : Text) → NotLonger (length p) (read_flags p)
unfolding read_flags
flags_shorten p = elim (Bool-cases (first p == b'-')) [
  | inl e ↦ rw e (length-drop 1 p)
  | inr e ↦ rw e (elim (Bool-cases (first p == b'0')) [
    | inl e' ↦ rw e' (length-drop 1 p)
    | inr e' ↦ rw e' (omega arith)
  ])
]

width_shortens : (spec : Spec) (p : Text) → NotLonger (length p) (read_width spec p)
unfolding read_width
width_shortens spec [] = omega arith
width_shortens spec (c ∷ p) = elim (Bool-cases (leb b'0' c && leb c b'9')) [
  | inl e ↦
      let wider = record spec { width = spec.width * 10 + (c - b'0') } in
      rw e (omega (arith, width_shortens wider p))
  | inr e ↦ rw e (omega arith)
]

length_shortens : (r : Spec × Text) → NotLonger (length r.1) (read_length r)
unfolding read_length
length_shortens (spec, p) = elim (Bool-cases (first p == b'l')) [
  | inl e ↦ rw e (elim (Bool-cases (first (drop 1 p) == b'l')) [
    | inl e' ↦ rw e' (length-drop 2 p)
    | inr e' ↦ rw e' (length-drop 1 p)
  ])
  | inr e ↦ rw e (omega arith)
]

spec_shortens : (p : Text) → NotLonger (length p) (read_spec p)
unfolding read_spec
spec_shortens p =
    let flags = read_flags p in
    omega (
      arith,
      flags_shorten p,
      width_shortens flags.0 flags.1,
      length_shortens (read_width flags.0 flags.1),
    )

round_shortens :
    (plain : Bool) (p : Text) → length (if plain then drop 1 (read_spec p).1 else p) ≤ length p
round_shortens true p = omega (arith, length-drop 1 (read_spec p).1, spec_shortens p)
round_shortens false p = omega arith

-- A format in which every conversion ends.
pub data Complete : Text → Type 0 where
  end : Complete []
  last_percent : Complete (b'%' ∷ [])
  plain : {c : ℕ} {p : Text} → (c == b'%') ≡ false → Complete p → Complete (c ∷ p)
  conversion :
      {p : Text}
      → 0 < length (read_spec p).1
      → Complete (drop 1 (read_spec p).1)
      → Complete (b'%' ∷ p)

abbrev Writes : Outcome → Type 0
Writes o = (out : Text) × (o ≡ written out)

-- A round that has room, at a plain character and at a conversion.
full_or : (b : Bool) (out : Text) (o : Outcome) → Writes o → Writes (if b then written out else o)
full_or true out o w = (out, refl)
full_or false out o w = w

module _ (size : ℕ) where
  format_loop-Writes :
      (fuel : ℕ) (p : Text) (args : List Arg) (out : Text)
      → length p < fuel
      → Complete p
      → Writes (format_loop fuel size p args out)
  unfolding format_loop
  format_loop-Writes zero p args out h k = absurd (omega arith)
  format_loop-Writes (suc fuel) _ args out h end = (out, refl)
  format_loop-Writes (suc fuel) _ args out h last_percent =
      full_or (not (ltb (length out) (size - 1))) out _ (put out b'%', refl)
  format_loop-Writes (suc fuel) (c ∷ p) args out h (plain ne k) = rw ne (
      full_or (not (ltb (length out) (size - 1))) out _
        (format_loop-Writes fuel p args (put out c) (omega arith) k))
  format_loop-Writes (suc fuel) (_ ∷ p) args out h (conversion some_left k) =
      let spec = read_spec p in
      let step = convert size spec.0 (first spec.1) args out in
      let left : (length spec.1 == 0) ≡ false = ground arith in
      let more : (length p == 0) ≡ false = ground (arith, spec_shortens p) in
      rw (left, more)
        (full_or (not (ltb (length out) (size - 1))) out _ (
          format_loop-Writes fuel (drop 1 spec.1) step.1 step.0
            (omega (arith, length-drop 1 spec.1, spec_shortens p)) k))

-- A call with a buffer that is not empty ends with an output, where every conversion of the format
-- ends inside the format: the rounds are enough, and nothing behind the format is read.
pub klog_format_string-ends :
    (size : ℕ) (format : Text) (args : List Arg)
    → 0 < size
    → Complete format
    → (out : Text) × (klog_format_string size format args ≡ written out)
unfolding klog_format_string
klog_format_string-ends size format args pos complete =
    let some_room : (size == 0) ≡ false = ground arith in
    rw some_room (format_loop-Writes size (length format + 1) format args [] (omega arith) complete)
