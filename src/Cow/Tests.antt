-- ===== src/Cow/Tests.antt =====
-- A write fault of kernel/mm/vmm/cow.c on a page with two owners.
use ccoperating_system_x.Common.{◌≡◌, refl, true, some, [], ◌∷◌, done}
use ccoperating_system_x.Paging.Tests.{canon, machine, shape, machine-IsTree}
use ccoperating_system_x.Cow.{Cow, cow_dec_refcount, cow_get_refcount, ok}
use ccoperating_system_x.Cow.Faults.{FaultReply, cow_handle_fault}
use ccoperating_system_x.Cow.Stuck.{Stuck, cow_handle_fault-Stuck}

abbrev shared : Cow
shared = record {
  blocks = record { orig_phys = 0x5000; refcount = 2 } ∷ [];
  regions = [];
  stats = record {
    faults_handled = 0;
    pages_allocated = 1;
    pages_freed = 0;
    current_blocks = 1;
    write_faults = 0;
    coalesced = 0;
  };
  initialized = true;
}

count_after : cow_get_refcount (cow_dec_refcount shared 0x5123).1 0x5000 ≡ (ok, some 1)
unfolding cow_get_refcount cow_dec_refcount
count_after = refl

cow_handle_fault-Stuck_example :
    (q : FaultReply) × (cow_handle_fault machine shared 0x9000 0x5000 ≡ done q)
    × Stuck canon shape 0x9000 machine q
cow_handle_fault-Stuck_example =
    cow_handle_fault-Stuck shape 0x9000 machine 0x5000 machine-IsTree shared
