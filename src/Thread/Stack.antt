-- ===== src/Thread/Stack.antt =====
-- `thread_alloc_user_stack` of kernel/process/thread.c never makes a stack: the base of its region lies
-- off a page boundary.
use ccoperating_system_x.Common.{
  ℕ, suc, ◌+◌, ◌-◌, ◌*◌, ◌/◌, ◌%◌, ◌^◌, ◌≤◌, ◌<◌, ◌≡◌, ◌≢◌, refl, ap, ◌∙◌, ◌⊎◌, inl, inr, Bool,
  true, false, some, Exec, done, ◌>>◌, assert, ltb, ◌==◌, arith, Bool-cases,
}
use ccoperating_system_x.Align.{u64, page_size}
use ccoperating_system_x.Pframe
use ccoperating_system_x.Pframe.{Pframe}
use ccoperating_system_x.Pframe.Spec
use ccoperating_system_x.Pframe.Spec.{allocated, Marks, AllocReply, got, full}
use ccoperating_system_x.Pframe.Alloc.{alloc-AllocReply}
use ccoperating_system_x.Pframe.Ledger.{freed_answer}
use ccoperating_system_x.Pframe.Free.{free-FreeReply}
use ccoperating_system_x.Paging.{Vm, err_alignment, page_map_page, map_guards, page_size_of}
use ccoperating_system_x.Paging.Range.{page_at, page_unmap_range}
use ccoperating_system_x.Vmm.{vmm_is_user_addr}
use ccoperating_system_x.Vmm.Pages.{Vmm, VmmResult, vmm_map_to_user, map_user_from}
use ccoperating_system_x.Vmm.Pages
use ccoperating_system_x.Thread.{
  thread_stack_base, lowest, stack_size_of, round_up, with_frames, drop_pages, map_stack,
  thread_alloc_user_stack,
}

-- The modules below are initialised and the frames are in order.
pub record IsReady (s : Vmm) : Type 0 where
  pub initialized : s.initialized ≡ true
  pub paging : s.vm.initialized ≡ true
  pub direct_map : s.vm.direct_map ≡ true
  pub frames : Spec.IsValid s.vm.frames

-- No memory is changed, and every frame is free or allocated as before.
pub record Same (s s' : Vmm) : Type 0 where
  pub ready : IsReady s'
  pub mem : s'.vm.mem ≡ s.vm.mem
  pub frames : (f : ℕ) → allocated s'.vm.frames f ≡ allocated s.vm.frames f

unmap_none : (vm : Vm) (pml4 v : ℕ) → vm.initialized ≡ true → page_unmap_range vm pml4 v 0 ≡ done vm
unfolding page_unmap_range
unmap_none vm pml4 v ready = rw ready refl

assert_if {ℓ} : {A : Type ℓ} {b : Bool} (run : Exec A) → b ≡ true → (assert b >> run) ≡ run
assert_if run e = ap (λ b. assert b >> run) e

page_misaligned :
    (vm : Vm) (pml4 v p : ℕ)
    → vm.initialized ≡ true
    → vm.direct_map ≡ true
    → v % page_size ≢ 0
    → page_map_page vm pml4 v p 3 true ≡ done (err_alignment, vm)
unfolding page_map_page map_guards page_size_of
page_misaligned vm pml4 v p ready direct odd =
    let ne : (v % page_size == 0) ≡ false = ground arith in
    assert_if _ ready ∙ (assert_if _ direct ∙ simp ne)

-- A page off a page boundary is not mapped.
map_user-misaligned :
    (s : Vmm) (pml4 v p : ℕ)
    → IsReady s
    → v < 2 ^ 63
    → v % page_size ≢ 0
    → vmm_is_user_addr v ≡ true
    → vmm_map_to_user s pml4 v p 1 3 ≡ done (Pages.err_oom, s)
unfolding vmm_map_to_user map_user_from
map_user-misaligned s pml4 v p ready small odd user =
    let at : page_at v 0 ≡ v = omega arith in
    let page = page_misaligned s.vm pml4 v (page_at p 0) ready.paging ready.direct_map odd in
    assert_if _ ready.initialized ∙ simp (user, at, page, unmap_none s.vm pml4 v ready.paging)

is_user : (v : ℕ) → lowest ≤ v → v < thread_stack_base → vmm_is_user_addr v ≡ true
unfolding vmm_is_user_addr
is_user v low high = ground arith

-- The stack has a page at least, and its pages are not on page boundaries.
stack_lem :
    (size : ℕ)
    → 0 < size
    → size + page_size ≤ u64
    → (stack_size_of size % page_size ≡ 0)
      × (page_size ≤ stack_size_of size)
      × (stack_size_of size ≤ 0x40000)
unfolding stack_size_of round_up
stack_lem size pos small = ground arith

ready_with :
    (s : Vmm) (frames : Pframe) → IsReady s → Spec.IsValid frames → IsReady (with_frames s frames)
unfolding with_frames
ready_with s frames ready valid = record {
  initialized = ready.initialized;
  paging = ready.paging;
  direct_map = ready.direct_map;
  frames = valid;
}

-- The loop ends at the first page, where there is a frame for it and where there is none.
first_page :
    (s : Vmm) (pml4 base left : ℕ) (q : Pframe.Reply)
    → IsReady s
    → lowest ≤ base
    → base < thread_stack_base
    → base % page_size ≡ page_size - 1
    → Pframe.alloc s.vm.frames ≡ done q
    → AllocReply s.vm.frames q
    → (s' : Vmm) × (map_stack s pml4 base 0 (suc left) ≡ done (false, s')) × Same s s'
unfolding map_stack drop_pages with_frames
first_page s pml4 base left _ ready low high odd e (full none_free) =
    (s, simp e, record { ready = ready; mem = refl; frames = λ f. refl })
first_page s pml4 base left _ ready low high odd e (got f {s' = frames'} lt free before marks) =
    let addr = f * page_size in
    let here : addr / page_size ≡ f = omega arith in
    let (q, e', r) = free-FreeReply frames' addr marks.valid in
    let gone : allocated frames' (addr / page_size) ≡ true =
      rw here (marks.frames f ∙ ground arith) in
    let (back, e'', m) =
      freed_answer frames' addr q r (omega arith) (omega (arith, marks.total)) gone in
    let taken : IsReady (with_frames s frames') = ready_with s frames' ready marks.valid in
    let at : page_at base 0 ≡ base = omega arith in
    let fails =
      map_user-misaligned (with_frames s frames') pml4 base addr taken (omega arith) (omega arith)
        (is_user base low high) in
    let first : map_stack s pml4 base 0 (suc left) ≡ done (false, with_frames s back) =
      simp (e, at, fails, e', e'') in
    (
      with_frames s back,
      first,
      record {
        ready = ready_with s back ready m.valid;
        mem = refl;
        frames = λ j. m.frames j ∙ rw here (ground (arith, marks.frames j, free));
      },
    )

-- The call where its loop fails.
no_stack :
    (s s' : Vmm) (next pml4 size base k : ℕ)
    → (size == 0) ≡ false
    → (next + (u64 - stack_size_of size)) % u64 ≡ base
    → ltb base lowest ≡ false
    → stack_size_of size / page_size ≡ suc k
    → map_stack s pml4 base 0 (suc k) ≡ done (false, s')
    → thread_alloc_user_stack s next (some pml4) size ≡ done (0, s', base)
unfolding thread_alloc_user_stack
no_stack s s' next pml4 size base k z at room pages e = rw (z, at, room, pages, e) refl

-- What a call answers: no stack. The next stack stands off a page boundary as this one, further down
-- by the size of the stack unless the region has no more room for it.
pub record NoStack (s : Vmm) (next size : ℕ) (q : ℕ × Vmm × ℕ) : Type 0 where
  pub null : q.0 ≡ 0
  pub same : Same s q.1
  pub odd : q.2 % page_size ≡ page_size - 1
  pub below : q.2 ≤ thread_stack_base
  pub step : (q.2 ≡ next) × (next < lowest + stack_size_of size) ⊎ (q.2 + stack_size_of size ≡ next)

-- `thread_alloc_user_stack`, from `s_next_thread_stack` on the last byte of a page in its region and
-- with a size that may be rounded up, returns and answers 0. No memory is changed, no frame stays
-- allocated, and `s_next_thread_stack` is the last byte of a page in its region again, the size of a
-- stack further down where there was room. The initial value is such an address.
pub thread_alloc_user_stack-NoStack :
    (s : Vmm) (next pml4 size : ℕ)
    → IsReady s
    → next % page_size ≡ page_size - 1
    → lowest ≤ next
    → next ≤ thread_stack_base
    → 0 < size
    → size + page_size ≤ u64
    → (q : ℕ × Vmm × ℕ) × (thread_alloc_user_stack s next (some pml4) size ≡ done q)
      × NoStack s next size q
unfolding thread_alloc_user_stack
thread_alloc_user_stack-NoStack s next pml4 size ready odd low high pos small =
    let z : (size == 0) ≡ false = ground arith in
    let (whole, least, most) = stack_lem size pos small in
    let base : (next + (u64 - stack_size_of size)) % u64 ≡ next - stack_size_of size =
      omega arith in
    elim (Bool-cases (ltb (next - stack_size_of size) lowest)) [
      | inl no_room ↦ (
        (0, s, next),
        rw (z, base, no_room) refl,
        record {
          null = refl;
          same = record { ready = ready; mem = refl; frames = λ f. refl };
          odd = odd;
          below = high;
          step = inl (refl, ground arith);
        },
      )
      | inr room ↦
          let at : lowest ≤ next - stack_size_of size = ground arith in
          let pages : stack_size_of size / page_size ≡ suc (stack_size_of size / page_size - 1) =
            omega arith in
          let (q, e, reply) = alloc-AllocReply s.vm.frames ready.frames in
          let (s', e', same) =
            first_page s pml4 (next - stack_size_of size) (stack_size_of size / page_size - 1) q
              ready at (omega arith) (omega arith) e reply in
          (
            (0, s', next - stack_size_of size),
            no_stack s s' next pml4 size _ _ z base room pages e',
            record {
              null = refl;
              same = same;
              odd = omega arith;
              below = omega arith;
              step = inr (omega arith);
            },
          )
    ]
