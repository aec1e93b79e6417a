-- ===== src/Sync/Rwlock/Exclusion.antt =====
-- What mutual exclusion of kernel/sync/rwlock.c comes to, and where it fails.
use ccoperating_system_x.Common.{
  ℕ, zero, suc, ◌+◌, ◌≤◌, ◌<◌, ◌≡◌, ◌≢◌, refl, sym, ap, ◌∙◌, true, List, [], ◌∷◌, get_or, length,
  pos, arith, length-set, get_or-set_self, get_or-set_ne, replicate,
}
use ccoperating_system_x.Sync.Rwlock.{
  Rwlock, init, read_may_enter, read_enter, write_claim, write_may_enter,
}
use ccoperating_system_x.Sync.Rwlock.Threads.{
  Pc, idle, entering, reading, claimed, writing, State, pc, go, claims, starts_write, Reach,
  AnyReach, passes, enters, other,
}
use ccoperating_system_x.Sync.Rwlock.Counting.{sum, sum-le, reads, writes, inside}
use ccoperating_system_x.Sync.Rwlock.Safety.{Inv, Reach-Inv, fresh-Inv}

-- Two threads count twice.
sum-two :
    (f : Pc → ℕ) (ps : List Pc) (i j : ℕ)
    → i ≢ j
    → f idle ≡ 0
    → f (get_or ps i idle) + f (get_or ps j idle) ≤ sum f ps
sum-two f [] i j ne h = omega arith
sum-two f (q ∷ ps) zero zero ne h = absurd (ne refl)
sum-two f (q ∷ ps) zero (suc j) ne h = omega (arith, sum-le f ps j h)
sum-two f (q ∷ ps) (suc i) zero ne h = omega (arith, sum-le f ps i h)
sum-two f (q ∷ ps) (suc i) (suc j) ne h = omega (arith, sum-two f ps i j (λ e. ne (ap suc e)) h)

-- If readers enter by `rwlock_read_trylock` alone, then in every interleaving of any number of
-- threads a thread that is inside as a writer is alone: no other thread is inside, as a writer or
-- as a reader.
pub writer_alone :
    (n : ℕ) {t : State} (i j : ℕ)
    → Reach (record { lock = init; pcs = replicate n idle }) t
    → i ≢ j
    → pc t i ≡ writing
    → (pc t j ≢ writing) × (pc t j ≢ reading)
writer_alone n {t} i j r ne e =
    let v : Inv t = Reach-Inv (fresh-Inv n) r in
    (
      λ e'.
          omega (arith, sum-two writes t.pcs i j ne refl, ap writes e, ap writes e', v.one_writer),
      λ e'. omega (
        arith,
        sum-le inside t.pcs i refl,
        sum-le reads t.pcs j refl,
        ap inside e,
        ap reads e',
        v.alone,
      ),
    )

may_enter-unlocked :
    (rw : Rwlock)
    → rw.writers ≡ pos 0
    → rw.readers ≡ pos 0
    → (read_may_enter rw ≡ true)
      × ((write_claim rw).0 ≡ true)
      × (write_may_enter (write_claim rw).1 ≡ true)
unfolding read_may_enter write_claim write_may_enter
may_enter-unlocked rw w r = ground arith

-- With `rwlock_read_lock` the lock does not exclude: wherever it is free and two threads are idle,
-- one of them can end up inside as a reader while the other is inside as a writer.
pub read_lock_race :
    (s : State) (i j : ℕ)
    → i < length s.pcs
    → j < length s.pcs
    → i ≢ j
    → pc s i ≡ idle
    → pc s j ≡ idle
    → s.lock.writers ≡ pos 0
    → s.lock.readers ≡ pos 0
    → (t : State) × AnyReach s t × (pc t i ≡ reading) × (pc t j ≡ writing)
read_lock_race s i j hi hj ne ei ej w r =
    let (may, claim, enter) = may_enter-unlocked s.lock w r in
    let s1 : State = go s i entering s.lock in
    let e1 : pc s1 j ≡ idle = get_or-set_ne s.pcs i j entering idle ne ∙ ej in
    let l1 : length s1.pcs ≡ length s.pcs = length-set s.pcs i entering in
    let s2 : State = go s1 j claimed (write_claim s.lock).1 in
    let l2 : length s2.pcs ≡ length s.pcs = length-set s1.pcs j claimed ∙ l1 in
    let s3 : State = go s2 j writing s2.lock in
    let l3 : length s3.pcs ≡ length s.pcs = length-set s2.pcs j writing ∙ l2 in
    let e2 : pc s2 j ≡ claimed = get_or-set_self s1.pcs j claimed idle (omega arith) in
    let e3 : pc s3 i ≡ entering =
      get_or-set_ne s2.pcs j i writing idle (λ e. ne (sym e))
      ∙ get_or-set_ne s1.pcs j i claimed idle (λ e. ne (sym e))
      ∙ get_or-set_self s.pcs i entering idle hi in
    let s4 : State = go s3 i reading (read_enter s3.lock) in
    (
      s4,
      AnyReach.next
          (AnyReach.next
            (AnyReach.next (AnyReach.next AnyReach.here (passes i hi ei may))
              (other (claims j (omega arith) e1 claim)))
            (other (starts_write j (omega arith) e2 enter)))
          (enters i (omega arith) e3),
      get_or-set_self s3.pcs i reading idle (omega arith),
      get_or-set_ne s3.pcs i j reading idle ne
          ∙ get_or-set_self s2.pcs j writing idle (omega arith),
    )
