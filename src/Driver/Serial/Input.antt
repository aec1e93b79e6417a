-- ===== src/Driver/Serial/Input.antt =====
-- The receive side of kernel/driver/serial/serial_intr.c.
use ccoperating_system_x.Common.{
  ℕ, zero, suc, ◌+◌, ◌≡◌, sym, List, [], ◌∷◌, ◌++◌, length, take, arith, true, false, length-append,
  append_assoc, append-nil,
}
use ccoperating_system_x.Driver.Ring.{Ring, is_full, write}
use ccoperating_system_x.Driver.Ring.Fifo.{Holds, is_full_lem, write-Holds}
use ccoperating_system_x.Driver.Serial.{buffer_size, receive}

same_queue : (rb : Ring) (q : List ℕ) → Holds buffer_size rb q → Holds buffer_size rb (q ++ [])
same_queue rb q h = rw (append-nil q) h

-- From the characters that come in, the interrupt handler keeps as many of the first as there are
-- free places, behind those that wait, and drops the others; a full buffer holds 255.
pub receive_keeps_first :
    (rb : Ring) (q cs : List ℕ) (free : ℕ)
    → Holds buffer_size rb q
    → free + length q ≡ 255
    → Holds buffer_size (receive rb cs) (q ++ take free cs)
unfolding receive
receive_keeps_first rb q [] zero h f = same_queue rb q h
receive_keeps_first rb q [] (suc free) h f = same_queue rb q h
receive_keeps_first rb q (c ∷ cs) zero h f =
    let full : is_full buffer_size rb ≡ true = ground (arith, is_full_lem buffer_size rb q h) in
    rw full (receive_keeps_first rb q cs zero h f)
receive_keeps_first rb q (c ∷ cs) (suc free) h f =
    let room : is_full buffer_size rb ≡ false = ground (arith, is_full_lem buffer_size rb q h) in
    let w = write-Holds buffer_size rb q c h (omega arith) in
    let rest =
      receive_keeps_first (write buffer_size rb c) (q ++ c ∷ []) cs free w
        (omega (arith, length-append q (c ∷ []))) in
    rw room (rw (sym (append_assoc q (c ∷ []) (take free cs))) rest)
