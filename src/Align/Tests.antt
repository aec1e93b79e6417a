-- ===== src/Align/Tests.antt =====
-- The arithmetic of kernel/mm/memory_detect/memory_state_helper.c at concrete numbers.
use ccoperating_system_x.Common.{List, [], ◌∷◌, false, Bool, ℕ, true}

abbrev two_regions : List (ℕ × Bool)
two_regions = (0x9fc00, true) ∷ (0x400, false) ∷ []
