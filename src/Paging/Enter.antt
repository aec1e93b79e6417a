-- ===== src/Paging/Enter.antt =====
-- The step "walk or create" of `page_map_page` in kernel/mm/vmm/page.c.
use ccoperating_system_x.Common.{
  ℕ, zero, suc, ◌+◌, ◌*◌, ◌/◌, ◌%◌, ◌<◌, ◌≡◌, ◌≢◌, refl, ◌⊎◌, inl, inr, Bool, true, false, arith,
  ◌==◌, ltb, leb, ◌&&◌, Bool-cases, ap, ==_iff, done,
}
use ccoperating_system_x.Align.{page_size}
use ccoperating_system_x.Pframe
use ccoperating_system_x.Pframe.{Pframe}
use ccoperating_system_x.Pframe.Spec.{allocated, AllocReply, got, full, Marks}
use ccoperating_system_x.Pframe.Alloc.{alloc-AllocReply}
use ccoperating_system_x.Paging.{
  Vm, Next, at, stop, err_oom, err_not_present, present, pat, table_of, slot, next_table,
  get_or_create_table, update_entry, created, page_create_table, clear_page, write,
}
use ccoperating_system_x.Paging.Query.{query_pml4}
use ccoperating_system_x.Paging.Tree.{number_of, Shape, Entry, empty, huge, table, IsTree}
use ccoperating_system_x.Paging.Grow
use ccoperating_system_x.Paging.Grow.{grown, grown_shape}

-- The walk goes on to the table `c` under the entry `i` of `t`: the tables are a tree still, which
-- translates every address as before, and no other entry has changed.
pub record Enters (canon : ℕ → ℕ) (sh : Shape) (root : ℕ) (vm : Vm) (t i k c : ℕ) (vm' : Vm)
    (sh' : Shape) : Type 0 where
  pub tree : IsTree canon sh' root vm'
  pub level : sh'.level c ≡ suc k
  pub number : sh'.prefix c ≡ number_of canon k (sh.prefix t) i
  pub old : (s : ℕ) → 0 < sh.level s → (sh'.level s ≡ sh.level s) × (sh'.prefix s ≡ sh.prefix s)
  pub points :
      (present (vm'.mem (slot t i)) ≡ true)
      × (pat (vm'.mem (slot t i)) ≡ false)
      × (table_of (vm'.mem (slot t i)) ≡ c)
  pub others :
      (s j : ℕ)
      → 0 < sh.level s
      → j < 512
      → (s ≡ t) × (j ≡ i) ⊎ (vm'.mem (slot s j) ≡ vm.mem (slot s j))
  pub query : (v : ℕ) → query_pml4 vm'.mem root v ≡ query_pml4 vm.mem root v

-- What the step may come to; an error leaves everything as it was.
pub data NextReply (canon : ℕ → ℕ) (sh : Shape) (root : ℕ) (vm : Vm) (t i k : ℕ)
    (alloc_missing : Bool) : Next → Type 0 where
  enters :
      {c : ℕ} {vm' : Vm} (sh' : Shape)
      → Enters canon sh root vm t i k c vm' sh'
      → NextReply canon sh root vm t i k alloc_missing (at c vm')
  missing :
      present (vm.mem (slot t i)) ≡ false
      → alloc_missing ≡ false
      → NextReply canon sh root vm t i k alloc_missing (stop err_not_present vm)
  no_memory :
      present (vm.mem (slot t i)) ≡ false
      → ((f : ℕ) → f < vm.frames.total_frames → allocated vm.frames f ≡ true)
      → NextReply canon sh root vm t i k alloc_missing (stop err_oom vm)

module _ {canon : ℕ → ℕ} (sh : Shape) (root : ℕ) (vm : Vm) (tree : IsTree canon sh root vm)
    (t i k : ℕ) (deep : sh.level t ≡ suc (suc k)) (in_table : i < 512) where
  abbrev Stepped : Bool → Type 0
  Stepped alloc_missing =
      (q : Next) × (next_table vm (slot t i) alloc_missing ≡ done q)
      × NextReply canon sh root vm t i k alloc_missing q

  -- A frame that was free is no table.
  fresh_frame : (f : ℕ) → allocated vm.frames f ≡ false → sh.level (f * page_size) ≡ 0
  fresh_frame f was = go (sh.level (f * page_size)) refl
    where
      go : (l : ℕ) → sh.level (f * page_size) ≡ l → sh.level (f * page_size) ≡ 0
      go zero e = e
      go (suc l) e =
          let t : allocated vm.frames (f * page_size / page_size) ≡ true =
            tree.taken (f * page_size) (omega arith) in
          let same : f * page_size / page_size ≡ f = omega arith in
          let t' : allocated vm.frames f ≡ true = rw same at t in cc

  -- The word that is written lies outside of the new table.
  outside :
      (n : ℕ)
      → sh.level n ≡ 0
      → n % page_size ≡ 0
      → (leb n (slot t i) && ltb (slot t i) (n + page_size)) ≡ false
  outside n fresh on_page = elim (Bool-cases (leb n (slot t i) && ltb (slot t i) (n + page_size))) [
    | inr e ↦ e
    | inl e ↦
        let same : n ≡ t = ground (arith, tree.aligned t (omega arith)) in
        absurd (let lv : sh.level n ≡ sh.level t = ap sh.level same in omega arith)
  ]

  got-Stepped :
      (f : ℕ) (frames' : Pframe)
      → f < vm.frames.total_frames
      → allocated vm.frames f ≡ false
      → Marks true (λ j. f == j) vm.frames frames'
      → present (vm.mem (slot t i)) ≡ false
      → Enters canon sh root vm t i k
          (f * page_size)
          (record vm { mem = grown vm.mem (f * page_size) (slot t i); frames = frames' })
          (grown_shape sh (f * page_size) k (number_of canon k (sh.prefix t) i))
  got-Stepped f frames' lt was marks p =
      let n : ℕ = f * page_size in
      let same : n / page_size ≡ f = omega arith in
      let fresh = fresh_frame f was in
      let ne : f ≢ 0 =
        λ e. (let a : allocated vm.frames 0 ≡ false = rw e at was in cc tree.null_taken) in
      record {
        tree =
            Grow.grown-IsTree sh root vm tree t i k n deep in_table p fresh (omega arith)
              (omega (arith, tree.frames.fits)) frames' (rw same marks) (omega arith);
        level = ground arith;
        number = ground arith;
        old = λ s h. ground (
          arith,
          Grow.old_ne sh root vm tree t i k n deep in_table p fresh (omega arith)
              (omega (arith, tree.frames.fits)) s h,
        );
        points =
            Grow.points sh root vm tree t i k n deep in_table p fresh (omega arith)
              (omega (arith, tree.frames.fits));
        others =
            Grow.keeps sh root vm tree t i k n deep in_table p fresh (omega arith)
              (omega (arith, tree.frames.fits));
        query =
            Grow.same_query sh root vm tree t i k n deep in_table p fresh (omega arith)
              (omega (arith, tree.frames.fits));
      }

  create-Stepped :
      (frames_reply : Pframe.Reply)
      → Pframe.alloc vm.frames ≡ done frames_reply
      → AllocReply vm.frames frames_reply
      → present (vm.mem (slot t i)) ≡ false
      → table_of (vm.mem (slot t i)) ≡ 0
      → Stepped true
  unfolding next_table get_or_create_table page_create_table created update_entry clear_page write
      grown
  create-Stepped _ e (full all) p z =
      (stop err_oom vm, rw (z, tree.ready, tree.mapped, e) refl, no_memory p all)
  create-Stepped _ e (got f {s'} lt was _ marks) p z =
      let n : ℕ = f * page_size in
      let ne : f ≢ 0 =
        λ e. (let a : allocated vm.frames 0 ≡ false = rw e at was in cc tree.null_taken) in
      let vm' : Vm = record vm { mem = grown vm.mem n (slot t i); frames = s' } in
      let far : (n == 0) ≡ false = ground arith in
      (
        at n vm',
        rw (z, tree.ready, tree.mapped, e, outside n (fresh_frame f was) (omega arith), z, far)
            refl,
        enters _ (got-Stepped f s' lt was marks p),
      )

  -- A table that is there is entered as it stands.
  pub enter_there :
      (b : Bool)
      → sh.level (table_of (vm.mem (slot t i))) ≡ suc k
      → next_table vm (slot t i) b ≡ done (at (table_of (vm.mem (slot t i))) vm)
  unfolding next_table get_or_create_table update_entry
  enter_there b lv = elim (Bool-cases (table_of (vm.mem (slot t i)) == 0)) [
    | inl e ↦
        absurd
          (let lv' : sh.level 0 ≡ suc k = rw ((==_iff _ _).0 e) at lv in omega (arith, tree.null))
    | inr e ↦ rw (e, (==_iff (table_of (vm.mem (slot t i))) _).1 refl) refl
  ]

  pub next_table-NextReply :
      (alloc_missing : Bool)
      → (present (vm.mem (slot t i)) && pat (vm.mem (slot t i))) ≡ false
      → Stepped alloc_missing
  unfolding next_table get_or_create_table update_entry
  next_table-NextReply alloc_missing not_huge = go alloc_missing (tree.entries t i k in_table deep)
    where
      go :
          (alloc_missing : Bool)
          → Entry sh (number_of canon k (sh.prefix t) i) k (vm.mem (slot t i))
          → Stepped alloc_missing
      go b (huge p q lt) = absurd (ground (arith, not_huge))
      go b (table p q lv pr) = (
        at (table_of (vm.mem (slot t i))) vm,
        enter_there b lv,
        enters sh (record {
          tree = tree;
          level = lv;
          number = pr;
          old = λ s h. (refl, refl);
          points = (p, q, refl);
          others = λ s j h hj. inr refl;
          query = λ v. refl;
        }),
      )
      go false (empty p z) = (stop err_not_present vm, rw z refl, missing p refl)
      go true (empty p z) =
          let (reply, e, a) = alloc-AllocReply vm.frames tree.frames in create-Stepped reply e a p z
