-- ===== src/Driver/Ring/Fifo.antt =====
-- The ring buffers of the drivers as queues.
use native.Mathlib.Decide.{ℕ_discrete}
use native.Mathlib.Nat.{mod-eq_of_lt}
use ccoperating_system_x.Common.{
  get_or-append, ℕ, suc, ◌+◌, ◌-◌, ◌<◌, ◌≡◌, ◌∙◌, List, [], ◌∷◌, ◌++◌, ◌==◌, ltb, if◌then◌else◌,
  get_or, length, length-append, length-set, get_or-set_self, get_or-set_ne, arith, replicate,
  length-replicate,
}
use ccoperating_system_x.Driver.Ring.{Ring, next_index, is_empty, is_full, write, read}

-- The place of the `k`th character behind the tail.
abbrev pub place : ℕ → ℕ → ℕ → ℕ
place size tail k = if ltb (tail + k) size then tail + k else tail + k - size

-- The buffer holds the characters, the oldest first: at most one less than it has places.
pub record Holds (size : ℕ) (rb : Ring) (cs : List ℕ) : Type 0 where
  pub room : length rb.buffer ≡ size
  pub inside : rb.tail < size
  pub fits : length cs < size
  pub ends : rb.head ≡ place size rb.tail (length cs)
  pub cells : (k : ℕ) → k < length cs → get_or rb.buffer (place size rb.tail k) 0 ≡ get_or cs k 0

pub next_index_lem :
    (size i : ℕ) → i < size → next_index size i ≡ (if i + 1 == size then 0 else i + 1)
unfolding next_index
next_index_lem size i h = grind (arith, mod-eq_of_lt)

-- The tests see an empty queue, and one that has one less character than there are places.
pub is_empty_lem :
    (size : ℕ) (rb : Ring) (cs : List ℕ) → Holds size rb cs → is_empty rb ≡ (length cs == 0)
unfolding is_empty
is_empty_lem size rb cs h = ground (arith, h.ends, h.inside, h.fits)

pub is_full_lem :
    (size : ℕ) (rb : Ring) (cs : List ℕ)
    → Holds size rb cs
    → is_full size rb ≡ (length cs + 1 == size)
unfolding is_full
is_full_lem size rb cs h = ground (arith, h.ends, h.inside, h.fits, next_index_lem size rb.head)

-- A character written to a buffer that is not full goes to the end of the queue.
pub write-Holds :
    (size : ℕ) (rb : Ring) (cs : List ℕ) (c : ℕ)
    → Holds size rb cs
    → length cs + 1 < size
    → Holds size (write size rb c) (cs ++ c ∷ [])
unfolding write
write-Holds size rb cs c h lt =
    let l = length-append cs (c ∷ []) in
    let n = next_index_lem size rb.head in
    record {
      room = length-set rb.buffer rb.head c ∙ h.room;
      inside = h.inside;
      fits = omega (arith, l);
      ends = ground (arith, l, n, h.ends, h.inside);
      cells = λ k less. elim (ℕ_discrete k (length cs)) [
        | yes e ↦
            let p = get_or-set_self rb.buffer rb.head c 0 in
            let q = get_or-append cs c k 0 in ground (arith, h.room, h.ends, h.inside, h.fits)
        | no ne ↦
            let p = get_or-set_ne rb.buffer rb.head (place size rb.tail k) c 0 in
            let q = get_or-append cs c k 0 in
            let old = h.cells k in ground (arith, h.ends, h.inside, h.fits, l)
      ];
    }

-- A read takes the oldest character.
pub read-Holds :
    (size : ℕ) (rb : Ring) (c : ℕ) (cs : List ℕ)
    → Holds size rb (c ∷ cs)
    → ((read size rb).0 ≡ c) × Holds size (read size rb).1 cs
unfolding read
read-Holds size rb c cs h =
    let n = next_index_lem size rb.tail in
    (
      ground (arith, h.cells 0, h.inside),
      record {
        room = h.room;
        inside = ground (arith, n, h.inside);
        fits = omega (arith, h.fits);
        ends = ground (arith, n, h.ends, h.inside, h.fits);
        cells = λ k less. ground (arith, n, h.cells (suc k), h.inside, h.fits);
      },
    )

-- The buffer as it starts holds nothing.
pub fresh-Holds :
    (size : ℕ) → 0 < size → Holds size (record { buffer = replicate size 0; head = 0; tail = 0 }) []
fresh-Holds size h = record {
  room = length-replicate size 0;
  inside = h;
  fits = h;
  ends = ground arith;
  cells = λ k less. absurd (omega arith);
}
