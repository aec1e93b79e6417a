-- ===== src/Lib.antt =====
-- A model of the kernel of CCOperatingSystemX64: memory frames, page tables, address spaces, the
-- heap, scheduling, synchronisation, buffered drivers, strings and the containers under them.
--
-- The parts and how they interact:
-- * Bitmap models kernel/bitmap/bitmap.c and bitmap_helper.h: `bitmap_set` is Bitmap.set, and so on.
--   A bitmap is the list of its bytes with its number of bits. Bitmap.Valid gives it as a set of
--   indices, and the other children say what ranges, scans and counts do to that set.
-- * Align models the address arithmetic of kernel/mm/memory_detect/memory_state_helper.c, and
--   Align.Summary its memory summary.
-- * Pframe models kernel/mm/pframe/pframe.c: the frame allocator keeps a bitmap with one bit for each
--   frame, and a hint. `pframe_alloc` is Pframe.alloc; Pframe.Spec is its contract as a set of frames.
-- * Paging models kernel/mm/vmm/page.c: the page tables of four levels in the words of the physical
--   memory, with the frames of Pframe. `page_map_page` is Paging.page_map_page; Paging.Query has the
--   queries and the unmapping, Paging.Range the ranges, and Paging.Init the direct map. Paging.Tree is
--   the invariant that the tables below the PML4 make a tree; entries of the PML4 may lead to the same
--   table, as 0, 256 and 511 do once `page_init` has run, and Paging.Tests has those tables.
--   Paging.Reply says what the calls may answer.
-- * Cow models kernel/mm/vmm/cow.c over Paging: Cow has the blocks with their counts, Cow.Faults the
--   handling of write faults, and Cow.Regions the regions. The table of the blocks is a list, and the
--   answers of `kmalloc` and the place of a new block in the table are arguments.
-- * Vmm models kernel/mm/vmm/vmm.c over Paging: the regions and the search for addresses (Vmm), the
--   pages of the kernel (Vmm.Pages, and Vmm.Alloc with huge pages) and the address spaces of
--   processes (Vmm.Spaces).
-- * Thread models the stacks of threads of kernel/process/thread.c over Vmm.
-- * Links models kernel/list/list.c and list.h on the pointers of every node; Links.Ring gives a ring
--   as the sequence of its nodes.
-- * Pid models the PID allocator of kernel/process/process.c, over another bitmap.
-- * Sched models kernel/process/sched.c (Sched.Core), sched_rr.c (Sched.Rr), sched_prio.c (Sched.Prio)
--   and `schedule` of process.c (in Sched.Core). The run queues hold tasks by number, and the
--   scheduler holds the store of the tasks. A call through a `sched_class_t` is a function on the
--   constructors of Sched.Class. The list operations of kernel/list are functions on sequences.
-- * Sync models kernel/sync: waitqueue.c (Sync.WaitQueue, on top of Sched), rwlock.c (Sync.Rwlock),
--   semaphore.c (Sync.Semaphore) and mutex.c (Sync.Mutex).
-- * Hashmap models kernel/base/hashmap.c, with the hash, the equality and the answers of `kmalloc` as
--   arguments.
-- * Heap models kernel/mm/heap/heap.c over the words of the memory, so that headers can overlap:
--   `kmalloc` is Heap.Alloc.kmalloc, and so on. Heap.Links is the free list, Heap.Blocks splits, merges
--   and grows, and Heap.Invariant is the invariant of the free list. What the mapping of pages answers
--   is an argument.
-- * Driver models the ring buffers of kernel/driver (Driver.Ring), the serial port with interrupts of
--   serial/serial_intr.c (Driver.Serial) and keyboard/keyboard.c (Driver.Keyboard). What the ports
--   answer is an argument of the handlers.
-- * Text models kernel/base/strhelpers.c (Text.Number) and string.c (Text.Strings) on strings as lists
--   of characters; Text.Number.Reverse, Print and RoundTrip are about the printers and parsers.
-- * Vfs.Path models `vfs_path_lookup` of kernel/fs/vfs/vfs_path.c with the counts of vfs_inode.c; the
--   file system's own `lookup` is an argument.
-- * Klog.Format models `klog_format_string` of kernel/klogs/private/format.c, over the printers of Text.
-- * Common has the shared names, the Boolean tests, lists with native indices, C integers, and Exec,
--   the result of a call that returns or fails an assertion.
--
-- Conventions: a function takes the state that the C code keeps in static variables or behind a
-- pointer, and returns it. The build is the debug one: a failed assertion is the result `panic`.
-- Sections under a spinlock are one step, and atomic operations outside one are steps of their own;
-- Sync.Rwlock.Threads, Sync.Semaphore.Ledger and Sync.Mutex.Race have the steps of all threads in
-- any order. Log calls have no effect on the state and are dropped. Counters and addresses keep the
-- wrap-around of their width, the posts of a semaphore and the references of an inode among them,
-- save the counts of readers and writers of a lock, which count threads and stay far from their
-- ends. A loop over a range is recursion on the rounds that are left. The printers of numbers take
-- 64 rounds, one for each bit at most, and the lookup of a path and the formatter one for each
-- character and one more. The eight rounds of Bitmap.count_bits clear every bit of a byte. A loop
-- along the free list of the heap takes a bound on its rounds, and the theorems ask for one that is
-- not below the length of the list. The physical memory of Paging is a function from the addresses
-- of its 64-bit words, and a table is its physical address; the TLB and the control registers do
-- not appear. `find_free_virt_range` takes 32769 rounds, which go past the end of its 128 MB in
-- steps of a page, and the frames of a huge page are tried for in the 10 rounds of the source.
-- Counting a ring of Links takes a bound on its rounds above the number of its nodes.
--
-- Not modelled: `pframe_init` and the reading of the E820 map, the context switch, process creation
-- and exit, threads but for their stacks, condition variables, the dispatch of page faults, the rest of
-- the file systems, the other drivers, interrupts, system calls, the log backends, the shell, and the boot loader, which is
-- assembly.

pub mod Common
pub mod Bitmap
pub mod Align
pub mod Pframe
pub mod Sched
pub mod Sync
pub mod Hashmap
pub mod Driver
pub mod Heap
pub mod Text
pub mod Vfs
pub mod Klog
pub mod Paging
pub mod Cow
pub mod Links
pub mod Vmm
pub mod Thread
pub mod Pid
