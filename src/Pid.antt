-- ===== src/Pid.antt =====
-- The PID allocator of kernel/process/process.c, over a bitmap of the PIDs in use.
-- Its spinlock makes each call one step; a result of -1 is `none`.
mod Tests
use ccoperating_system_x.Common.{
  ℕ, ◌≤◌, ◌<◌, ◌≡◌, ◌≢◌, refl, sym, ◌∙◌, Bool, true, false, ◌&&◌, Option, none, some, List, Exec,
  done, panic, ◌>>=◌, ltb, leb, ◌==◌, if◌then◌else◌, ℤ, pos, negsuc, arith, length, All, Bool-cases,
  ◌+◌, lt→ltb, ◌^◌, inl, inr,
}
use ccoperating_system_x.Bitmap.{Bitmap, byte_count}
use ccoperating_system_x.Bitmap
use ccoperating_system_x.Bitmap.Valid.{Wrote, is_set}
use ccoperating_system_x.Bitmap.Valid
use ccoperating_system_x.Bitmap.Range.{set-Wrote, clear-Wrote}
use ccoperating_system_x.Bitmap.Scan.{Found, hit, miss, find_first_zero-Found}
use ccoperating_system_x.Bitmap.Fresh

-- `PID_MAX`
abbrev pub pid_max : ℕ
pid_max = 32768

-- `pid_alloc_init` over the buffer of the allocator.
unfoldable pub pid_alloc_init : List ℕ → Exec Bitmap
pid_alloc_init buffer = do pid_bitmap ← Bitmap.init buffer pid_max; Bitmap.set pid_bitmap 0

-- What `pid_alloc` does with the result of its scan.
unfoldable pub take_pid : Bitmap → Option ℕ → Exec (Option ℕ × Bitmap)
take_pid pid_bitmap none = done (none, pid_bitmap)
take_pid pid_bitmap (some pid) =
    if leb pid_max pid
    then done (none, pid_bitmap)
    else do pid_bitmap' ← Bitmap.set pid_bitmap pid; done (some pid, pid_bitmap')

-- `pid_alloc`
unfoldable pub pid_alloc : Bitmap → Exec (Option ℕ × Bitmap)
unfolding take_pid
pid_alloc pid_bitmap = do pid ← Bitmap.find_first_zero pid_bitmap; take_pid pid_bitmap pid

-- `pid_free`
unfoldable pub pid_free : Bitmap → ℤ → Exec Bitmap
pid_free pid_bitmap (negsuc n) = done pid_bitmap
pid_free pid_bitmap (pos pid) =
    if ltb 0 pid && ltb pid pid_max then Bitmap.clear pid_bitmap pid else done pid_bitmap

-- A sound bitmap of all PIDs in which PID 0 is taken.
pub record IsPids (bm : Bitmap) : Type 0 where
  pub valid : Valid.IsValid bm
  pub size : bm.nbits ≡ pid_max
  pub reserved : is_set bm 0 ≡ true

-- What `pid_alloc` may answer: the lowest PID that is free, which it takes and which is not 0; or
-- -1, where all PIDs are taken.
pub data PidReply (bm : Bitmap) : Option ℕ × Bitmap → Type 0 where
  got :
      (pid : ℕ) {bm' : Bitmap}
      → 0 < pid
      → pid < pid_max
      → is_set bm pid ≡ false
      → ((j : ℕ) → j < pid → is_set bm j ≡ true)
      → IsPids bm'
      → ((j : ℕ) → is_set bm' j ≡ (if pid == j then true else is_set bm j))
      → PidReply bm (some pid, bm')
  all_taken : ((j : ℕ) → j < pid_max → is_set bm j ≡ true) → PidReply bm (none, bm)

not_zero : (bm : Bitmap) (k : ℕ) → is_set bm 0 ≡ true → is_set bm k ≡ false → k ≢ 0
not_zero bm k h e z = let clash : is_set bm k ≡ true = rw z h in cc

take_pid-PidReply :
    (bm : Bitmap) (o : Option ℕ)
    → IsPids bm
    → Found false bm 0 bm.nbits o
    → (r : Option ℕ × Bitmap) × (take_pid bm o ≡ done r) × PidReply bm r
unfolding take_pid
take_pid-PidReply bm _ v (miss h) =
    ((none, bm), refl, all_taken λ j lt. h j (omega arith) (omega (arith, v.size)))
take_pid-PidReply bm _ v (hit k lo hi free before) =
    let (bm', e, w) = set-Wrote bm v.valid k hi in
    let small : leb pid_max k ≡ false = ground (arith, v.size) in
    (
      (some k, bm'),
      rw (small, e),
      got k (omega (arith, not_zero bm k v.reserved free)) (omega (arith, v.size)) free
          (λ j lt. before j (omega arith) lt)
          (record {
            valid = w.valid;
            size = w.same_size ∙ v.size;
            reserved = ground (arith, w.bit 0, v.reserved);
          })
          w.bit,
    )

-- On a sound bitmap in which PID 0 is taken `pid_alloc` returns: the lowest PID that is free, which
-- is not 0 and which alone is taken then; or -1, with nothing changed, where all PIDs are taken.
-- The bitmap stays sound, and PID 0 taken.
pub pid_alloc-PidReply :
    (bm : Bitmap) → IsPids bm → (r : Option ℕ × Bitmap) × (pid_alloc bm ≡ done r) × PidReply bm r
unfolding pid_alloc
pid_alloc-PidReply bm v =
    let (o, e, f) = find_first_zero-Found bm in
    let (r, e', p) = take_pid-PidReply bm o v f in (r, rw e e', p)

-- What `pid_free` gives up: a PID in range that is not 0.
abbrev pub given_up : ℤ → ℕ → Bool
given_up (negsuc n) j = false
given_up (pos pid) j = if ltb 0 pid && ltb pid pid_max then pid == j else false

-- `pid_free` returns for every number: it gives up exactly the PID that it is given if that is in
-- range and not 0, and nothing else; the bitmap stays sound, and PID 0 taken.
pub pid_free-IsPids :
    (bm : Bitmap) (pid : ℤ)
    → IsPids bm
    → (bm' : Bitmap) × (pid_free bm pid ≡ done bm')
      × IsPids bm'
      × ((j : ℕ) → is_set bm' j ≡ (if given_up pid j then false else is_set bm j))
unfolding pid_free
pid_free-IsPids bm (negsuc n) v = (bm, refl, v, λ j. refl)
pid_free-IsPids bm (pos pid) v = elim (Bool-cases (ltb 0 pid && ltb pid pid_max)) [
  | inr f ↦ (bm, rw f refl, v, λ j. rw f refl)
  | inl t ↦
      let (bm', e, w) = clear-Wrote bm v.valid pid (ground (arith, v.size)) in
      (
        bm',
        rw t e,
        record {
          valid = w.valid;
          size = w.same_size ∙ v.size;
          reserved = ground (arith, w.bit 0, v.reserved);
        },
        λ j. rw t (w.bit j),
      )
]

-- Over a buffer of 4096 bytes `pid_alloc_init` returns a sound bitmap in which PID 0 is taken and
-- every other PID is free.
pub pid_alloc_init-IsPids :
    (buffer : List ℕ)
    → All (λ b. b < 256) buffer
    → 4096 ≤ length buffer
    → (bm : Bitmap) × (pid_alloc_init buffer ≡ done bm)
      × IsPids bm
      × ((j : ℕ) → 0 < j → j < pid_max → is_set bm j ≡ false)
unfolding pid_alloc_init
pid_alloc_init-IsPids buffer bytes room =
    let (bm, e, v, size, zero_bits) =
      Fresh.init-IsValid buffer pid_max (omega arith) (omega arith) bytes (omega arith) in
    let (bm', e', w) = set-Wrote bm v 0 (omega (arith, size)) in
    (
      bm',
      rw e e',
      record { valid = w.valid; size = w.same_size ∙ size; reserved = ground (arith, w.bit 0) },
      λ j lt lt'. ground (arith, w.bit j, zero_bits j lt'),
    )
