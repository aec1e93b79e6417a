-- ===== src/Thread/Tests.antt =====
-- The first stack of a thread of kernel/process/thread.c.
use ccoperating_system_x.Common.{ℕ, ◌≡◌, refl, some, done, arith}
use ccoperating_system_x.Paging.Tests.{machine-IsTree}
use ccoperating_system_x.Vmm.Pages.{Vmm}
use ccoperating_system_x.Vmm.Tests.{kernel}
use ccoperating_system_x.Thread.{thread_stack_base, thread_stack_size, thread_alloc_user_stack}
use ccoperating_system_x.Thread.Stack.{IsReady, NoStack, thread_alloc_user_stack-NoStack}

kernel-IsReady : IsReady kernel
kernel-IsReady = record {
  initialized = refl;
  paging = refl;
  direct_map = refl;
  frames = machine-IsTree.frames;
}

thread_alloc_user_stack-NoStack_example :
    (q : ℕ × Vmm × ℕ) × (thread_alloc_user_stack kernel thread_stack_base
        (some 0x1000)
        thread_stack_size
      ≡ done q)
    × NoStack kernel thread_stack_base thread_stack_size q
thread_alloc_user_stack-NoStack_example =
    thread_alloc_user_stack-NoStack kernel thread_stack_base 0x1000 thread_stack_size kernel-IsReady
      refl (omega arith) (omega arith) (omega arith) (omega arith)
