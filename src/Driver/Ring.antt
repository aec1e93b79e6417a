-- ===== src/Driver/Ring.antt =====
-- The ring buffers of kernel/driver/serial/serial_intr.c and kernel/driver/keyboard/keyboard.c:
-- three copies of one structure, that differ in the size of the buffer.
pub mod Fifo
use ccoperating_system_x.Common.{ℕ, ◌+◌, ◌%◌, Bool, List, ◌==◌, get_or, set}

-- `ring_buffer_tx_t`, `ring_buffer_rx_t` and `ring_buffer_kb_t`
pub record Ring : Type 0 where
  pub buffer : List ℕ
  pub head : ℕ
  pub tail : ℕ

-- `(i + 1) % size`
unfoldable pub next_index : ℕ → ℕ → ℕ
next_index size i = (i + 1) % size

unfoldable pub is_empty : Ring → Bool
is_empty rb = rb.head == rb.tail

unfoldable pub is_full : ℕ → Ring → Bool
is_full size rb = next_index size rb.head == rb.tail

unfoldable pub write : ℕ → Ring → ℕ → Ring
write size rb c = record rb { buffer = set rb.buffer rb.head c; head = next_index size rb.head }

-- The character read, and the buffer behind it.
unfoldable pub read : ℕ → Ring → ℕ × Ring
read size rb = (get_or rb.buffer rb.tail 0, record rb { tail = next_index size rb.tail })
