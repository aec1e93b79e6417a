-- ===== src/Pid/Tests.antt =====
-- The PID allocator of kernel/process/process.c from its start.
use ccoperating_system_x.Common.{
  ℕ, ◌<◌, ◌≡◌, Option, List, done, replicate, replicate-All, ap, ◌∷◌, arith, length-replicate, refl,
}
use ccoperating_system_x.Bitmap.{Bitmap, has_bit}
use ccoperating_system_x.Bitmap.Valid.{is_set_lem}
use ccoperating_system_x.Pid.{pid_max, pid_alloc, IsPids, PidReply, pid_alloc-PidReply}

abbrev buffer : List ℕ
buffer = replicate 4096 0

-- Only PID 0 is taken.
abbrev fresh : Bitmap
fresh = record { bits = 1 ∷ replicate 4095 0; nbits = pid_max }

fresh-IsPids : IsPids fresh
unfolding has_bit
fresh-IsPids = record {
  valid = record {
    bytes = (omega arith, replicate-All (λ b. b < 256) 4095 0 (omega arith));
    storage = omega (arith, length-replicate {A = ℕ} 4095 0);
    small = omega arith;
  };
  size = refl;
  reserved = ap (λ f. f 0) (is_set_lem fresh);
}

pid_alloc-PidReply_example : (r : Option ℕ × Bitmap) × (pid_alloc fresh ≡ done r) × PidReply fresh r
pid_alloc-PidReply_example = pid_alloc-PidReply fresh fresh-IsPids
