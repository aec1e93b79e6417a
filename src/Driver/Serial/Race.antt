-- ===== src/Driver/Serial/Race.antt =====
-- An interrupt inside `async_serial_putc` of kernel/driver/serial/serial_intr.c, which allows them
-- again between its write to the buffer and the start of the transmission.
use ccoperating_system_x.Common.{ℕ, ◌≡◌, true, false, refl, some, [], ◌∷◌, ◌++◌, ap, arith}
use ccoperating_system_x.Driver.Ring.{Ring, is_empty, write, read}
use ccoperating_system_x.Driver.Ring.Fifo.{
  Holds, next_index_lem, is_empty_lem, write-Holds, read-Holds,
}
use ccoperating_system_x.Driver.Serial.{
  Uart, tx_empty, buffer_size, send_next, handle, uart_irq_handler, start_tx,
}

-- The character in the empty buffer, and the interrupt that sends it.
abbrev pub written : Uart → ℕ → Uart
written u c = record u { tx = write buffer_size u.tx c }

abbrev pub interrupted : Uart → ℕ → Uart
interrupted u c = uart_irq_handler (written u c) (some tx_empty) []

-- The interrupt sends the character and leaves the buffer empty.
interrupted-Holds :
    (u : Uart) (c : ℕ)
    → Holds buffer_size u.tx []
    → Holds buffer_size (interrupted u c).tx [] × ((interrupted u c).sent ≡ u.sent ++ c ∷ [])
unfolding uart_irq_handler handle send_next
interrupted-Holds u c h =
    let w = write-Holds buffer_size u.tx [] c h (omega arith) in
    let some_char : is_empty (write buffer_size u.tx c) ≡ false =
      is_empty_lem buffer_size (write buffer_size u.tx c) (c ∷ []) w in
    let r = read-Holds buffer_size (write buffer_size u.tx c) c [] w in
    rw some_char (r.1, ap (λ k. u.sent ++ k ∷ []) r.0)

read_of_none : (rb : Ring) → Holds buffer_size rb [] → is_empty (read buffer_size rb).1 ≡ false
unfolding is_empty read
read_of_none rb h = ground (arith, next_index_lem buffer_size rb.tail h.inside, h.ends, h.inside)

-- Where the buffer is empty, and the interrupt that says that the port is ready comes between the
-- write of a character and the start of the transmission, the interrupt sends the character and the
-- buffer is empty again. The start then reads from it all the same: it sends one more character,
-- which nobody wrote, and leaves a buffer that counts as not empty.
pub start_tx_race :
    (u : Uart) (c : ℕ)
    → Holds buffer_size u.tx []
    → ((interrupted u c).sent ≡ u.sent ++ c ∷ [])
      × (is_empty (interrupted u c).tx ≡ true)
      × ((stale : ℕ) × ((start_tx (interrupted u c) true).sent ≡ (u.sent ++ c ∷ []) ++ stale ∷ []))
      × (is_empty (start_tx (interrupted u c) true).tx ≡ false)
unfolding start_tx send_next
start_tx_race u c h =
    let none = interrupted-Holds u c h in
    let left = read_of_none (interrupted u c).tx none.0 in
    (
      none.1,
      is_empty_lem buffer_size (interrupted u c).tx [] none.0,
      (
        (read buffer_size (interrupted u c).tx).0,
        rw left (ap (λ l. l ++ (read buffer_size (interrupted u c).tx).0 ∷ []) none.1),
      ),
      rw (left, left) refl,
    )
