-- ===== src/Pframe/Tests.antt =====
-- The frame allocator of kernel/mm/pframe/pframe.c on a machine with 16 frames.
use ccoperating_system_x.Common.{ℕ, ◌≡◌, refl, true, some, List, [], ◌∷◌, done, arith}
use ccoperating_system_x.Bitmap.{
  set, update, test, find_next_zero, find_zero_loop, set_range, set_loop, has_bit, set_bit,
}
use ccoperating_system_x.Pframe.{
  Pframe, ok, err_invalid, Reply, alloc, take_frame, retry, free, alloc_n, search, search_again,
  take_run,
}
use ccoperating_system_x.Pframe.Spec.{IsValid, AllocReply, allocated}
use ccoperating_system_x.Pframe.Alloc.{alloc-AllocReply}
use ccoperating_system_x.Pframe.AllocN.{RunReply, alloc_n-RunReply}
use ccoperating_system_x.Pframe.Ledger.{free-alloc}

abbrev with_map : List ℕ → ℕ → Pframe
with_map bits hint = record {
  frame_map = record { bits = bits; nbits = 16 };
  total_frames = 16;
  managed_base = 0;
  managed_end = 0x10000;
  last_alloc_hint = hint;
  initialized = true;
}

-- The frames 0, 1, 2 and 12 are allocated, and the hint is 1.
abbrev state : Pframe
state = with_map (7 ∷ 16 ∷ []) 1

state-IsValid : IsValid state
state-IsValid = record {
  map = record {
    bytes = (omega arith, (omega arith, tt));
    storage = omega arith;
    small = omega arith;
  };
  clean = λ j h h'. absurd (omega arith);
  size = refl;
  fits = omega arith;
  ready = refl;
}

alloc-state : alloc state ≡ done (ok, some 0x3000, with_map (15 ∷ 16 ∷ []) 4)
unfolding alloc take_frame retry set update find_next_zero find_zero_loop test has_bit set_bit
alloc-state = refl

alloc_n-state : alloc_n state 5 ≡ done (ok, some 0x3000, with_map (255 ∷ 16 ∷ []) 8)
unfolding alloc_n search search_again take_run test set_range set_loop set update has_bit set_bit
alloc_n-state = refl

alloc-AllocReply_example : (q : Reply) × (alloc state ≡ done q) × AllocReply state q
alloc-AllocReply_example = alloc-AllocReply state state-IsValid

alloc_n-RunReply_example : (q : Reply) × (alloc_n state 5 ≡ done q) × RunReply state 5 q
alloc_n-RunReply_example = alloc_n-RunReply state 5 state-IsValid

free-alloc_example :
    (s'' : Pframe) × (free (with_map (15 ∷ 16 ∷ []) 4) 0x3000 ≡ done (ok, s''))
    × ((j : ℕ) → allocated s'' j ≡ allocated state j)
    × (free s'' 0x3000 ≡ done (err_invalid, s''))
free-alloc_example = free-alloc state (with_map (15 ∷ 16 ∷ []) 4) 0x3000 state-IsValid alloc-state
