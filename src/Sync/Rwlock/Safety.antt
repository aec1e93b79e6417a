-- ===== src/Sync/Rwlock/Safety.antt =====
-- Mutual exclusion of the lock of kernel/sync/rwlock.c.
use ccoperating_system_x.Common.{
  ℕ, zero, suc, ◌+◌, ◌≤◌, ◌<◌, ◌≡◌, refl, sym, ap, ◌∙◌, true, false, set, length, pos, inc,
  positive, arith, ◌⊎◌, inl, inr, replicate,
}
use ccoperating_system_x.Sync.Rwlock.{
  Rwlock, init, read_trylock, read_unlock, write_claim, write_may_enter, write_trylock,
  write_unlock, downgrade_enter, downgrade_leave,
}
use ccoperating_system_x.Sync.Rwlock.Threads.{
  Pc, idle, reading, claimed, writing, downgrading, State, pc, Step, trylock_reads, unlocks_read,
  claims, starts_write, trylock_writes, unlocks_write, downgrades, downgraded, Reach,
}
use ccoperating_system_x.Sync.Rwlock.Counting.{
  reads, writes, inside, sum, sum-move, sum-inside, not_positive, inc_pos, dec_pos, stay_pos,
}

-- The counters are the numbers of the threads, at most one is a writer, and beside one that is
-- inside there is no reader.
pub record Inv (s : State) : Type 0 where
  pub readers : s.lock.readers ≡ pos (sum reads s.pcs)
  pub writers : s.lock.writers ≡ pos (sum writes s.pcs)
  pub one_writer : sum writes s.pcs ≤ 1
  pub alone : (sum inside s.pcs ≡ 0) ⊎ (sum reads s.pcs ≡ 0)

-- What the move of one thread does to the three sums.
module _ (s : State) (i : ℕ) (old p : Pc) (h : i < length s.pcs) (e : pc s i ≡ old) where
  move_reads : sum reads (set s.pcs i p) + reads old ≡ sum reads s.pcs + reads p
  move_reads = sum-move reads s.pcs i old p h e

  move_writes : sum writes (set s.pcs i p) + writes old ≡ sum writes s.pcs + writes p
  move_writes = sum-move writes s.pcs i old p h e

  move_inside : sum inside (set s.pcs i p) + inside old ≡ sum inside s.pcs + inside p
  move_inside = sum-move inside s.pcs i old p h e

trylock_lem :
    (rw : Rwlock)
    → (read_trylock rw).0 ≡ true
    → (positive rw.writers ≡ false)
      × ((read_trylock rw).1.readers ≡ inc rw.readers)
      × ((read_trylock rw).1.writers ≡ rw.writers)
unfolding read_trylock
trylock_lem rw h = ground arith

claim_lem :
    (rw : Rwlock)
    → (write_claim rw).0 ≡ true
    → (positive rw.writers ≡ false)
      × ((write_claim rw).1.writers ≡ inc rw.writers)
      × ((write_claim rw).1.readers ≡ rw.readers)
unfolding write_claim
claim_lem rw h = ground arith

write_trylock_lem :
    (rw : Rwlock)
    → (write_trylock rw).0 ≡ true
    → (positive rw.writers ≡ false)
      × (positive rw.readers ≡ false)
      × ((write_trylock rw).1.writers ≡ inc rw.writers)
      × ((write_trylock rw).1.readers ≡ rw.readers)
unfolding write_trylock
write_trylock_lem rw h = ground arith

may_enter_lem : (rw : Rwlock) → write_may_enter rw ≡ true → positive rw.readers ≡ false
unfolding write_may_enter
may_enter_lem rw h = ground arith

Step-Inv : {s t : State} → Step s t → Inv s → Inv t
unfolding read_unlock write_unlock downgrade_enter downgrade_leave
Step-Inv {s} (trylock_reads i h e ok) v =
    let (free, r, w) = trylock_lem s.lock ok in
    let z = not_positive s.lock.writers _ v.writers free in
    let mr = move_reads s i idle reading h e in
    let mw = move_writes s i idle reading h e in
    let mi = move_inside s i idle reading h e in
    record {
      readers = r ∙ inc_pos _ _ _ v.readers (omega arith);
      writers = w ∙ stay_pos _ _ _ v.writers (omega arith);
      one_writer = omega (arith, v.one_writer);
      alone = inl (omega (arith, sum-inside s.pcs));
    }
Step-Inv {s} (unlocks_read i h e) v =
    let mr = move_reads s i reading idle h e in
    let mw = move_writes s i reading idle h e in
    let mi = move_inside s i reading idle h e in
    record {
      readers = dec_pos _ _ _ v.readers (omega arith);
      writers = stay_pos _ _ _ v.writers (omega arith);
      one_writer = omega (arith, v.one_writer);
      alone = omega (arith, v.alone);
    }
Step-Inv {s} (claims i h e ok) v =
    let (free, w, r) = claim_lem s.lock ok in
    let z = not_positive s.lock.writers _ v.writers free in
    let mr = move_reads s i idle claimed h e in
    let mw = move_writes s i idle claimed h e in
    let mi = move_inside s i idle claimed h e in
    record {
      readers = r ∙ stay_pos _ _ _ v.readers (omega arith);
      writers = w ∙ inc_pos _ _ _ v.writers (omega arith);
      one_writer = omega arith;
      alone = omega (arith, v.alone);
    }
Step-Inv {s} (starts_write i h e ok) v =
    let z = not_positive s.lock.readers _ v.readers (may_enter_lem s.lock ok) in
    let mr = move_reads s i claimed writing h e in
    let mw = move_writes s i claimed writing h e in
    record {
      readers = stay_pos _ _ _ v.readers (omega arith);
      writers = stay_pos _ _ _ v.writers (omega arith);
      one_writer = omega (arith, v.one_writer);
      alone = inr (omega arith);
    }
Step-Inv {s} (trylock_writes i h e ok) v =
    let (free, unread, w, r) = write_trylock_lem s.lock ok in
    let z = not_positive s.lock.writers _ v.writers free in
    let z' = not_positive s.lock.readers _ v.readers unread in
    let mr = move_reads s i idle writing h e in
    let mw = move_writes s i idle writing h e in
    record {
      readers = r ∙ stay_pos _ _ _ v.readers (omega arith);
      writers = w ∙ inc_pos _ _ _ v.writers (omega arith);
      one_writer = omega arith;
      alone = inr (omega arith);
    }
Step-Inv {s} (unlocks_write i h e) v =
    let mr = move_reads s i writing idle h e in
    let mw = move_writes s i writing idle h e in
    let mi = move_inside s i writing idle h e in
    record {
      readers = stay_pos _ _ _ v.readers (omega arith);
      writers = dec_pos _ _ _ v.writers (omega arith);
      one_writer = omega (arith, v.one_writer);
      alone = inl (omega (arith, v.one_writer, sum-inside s.pcs));
    }
Step-Inv {s} (downgrades i h e) v =
    let mr = move_reads s i writing downgrading h e in
    let mw = move_writes s i writing downgrading h e in
    let mi = move_inside s i writing downgrading h e in
    record {
      readers = inc_pos _ _ _ v.readers (omega arith);
      writers = stay_pos _ _ _ v.writers (omega arith);
      one_writer = omega (arith, v.one_writer);
      alone = inl (omega (arith, v.one_writer, sum-inside s.pcs));
    }
Step-Inv {s} (downgraded i h e) v =
    let mr = move_reads s i downgrading reading h e in
    let mw = move_writes s i downgrading reading h e in
    let mi = move_inside s i downgrading reading h e in
    record {
      readers = stay_pos _ _ _ v.readers (omega arith);
      writers = dec_pos _ _ _ v.writers (omega arith);
      one_writer = omega (arith, v.one_writer);
      alone = omega (arith, v.alone);
    }

pub Reach-Inv : {s t : State} → Inv s → Reach s t → Inv t
Reach-Inv v Reach.here = v
Reach-Inv v (Reach.next r st) = Step-Inv st (Reach-Inv v r)

sum_idle : (f : Pc → ℕ) (n : ℕ) → f idle ≡ 0 → sum f (replicate n idle) ≡ 0
sum_idle f zero h = refl
sum_idle f (suc n) h = omega (arith, sum_idle f n h)

-- The lock after `rwlock_init`, with idle threads.
pub fresh-Inv : (n : ℕ) → Inv (record { lock = init; pcs = replicate n idle })
unfolding init
fresh-Inv n = record {
  readers = ap pos (sym (sum_idle reads n refl));
  writers = ap pos (sym (sum_idle writes n refl));
  one_writer = omega (arith, sum_idle writes n refl);
  alone = inl (sum_idle inside n refl);
}
