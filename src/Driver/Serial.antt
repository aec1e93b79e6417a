-- ===== src/Driver/Serial.antt =====
-- kernel/driver/serial/serial_intr.c: the serial port with interrupts. What the port's registers
-- answer is an argument: the source of an interrupt, the characters that have come in, and whether
-- the transmit register is empty. What is written to the data register is kept in `sent`.
pub mod Input
pub mod Order
pub mod Race
use ccoperating_system_x.Common.{
  ℕ, ◌+◌, ◌%◌, ◌^◌, Bool, true, false, not, Option, none, some, List, [], ◌∷◌, ◌++◌, ◌&&◌,
  if◌then◌else◌, replicate,
}
use ccoperating_system_x.Driver.Ring.{Ring, is_empty, is_full, write, read}

-- `UART_TX_BUFFER_SIZE` and `UART_RX_BUFFER_SIZE`
abbrev pub buffer_size : ℕ
buffer_size = 256

pub record Uart : Type 0 where
  pub tx : Ring
  pub rx : Ring
  pub initialized : Bool
  pub echo_enabled : Bool
  pub tx_interrupt : Bool
  pub invocation_count : ℕ
  pub sent : List ℕ

-- Where the interrupt comes from: bits 1 to 3 of the identification register.
pub data Source : Type 0 where
  rx_ready tx_empty rx_status timeout other : Source

-- The state that the static variables start in.
unfoldable pub fresh : Uart
fresh = record {
  tx = record { buffer = replicate buffer_size 0; head = 0; tail = 0 };
  rx = record { buffer = replicate buffer_size 0; head = 0; tail = 0 };
  initialized = false;
  echo_enabled = true;
  tx_interrupt = false;
  invocation_count = 0;
  sent = [];
}

-- The loop over the characters that are available.
unfoldable pub receive : Ring → List ℕ → Ring
receive rb [] = rb
receive rb (c ∷ cs) = receive (if is_full buffer_size rb then rb else write buffer_size rb c) cs

-- A character from the transmit buffer to the data register.
unfoldable pub send_next : Uart → Uart
send_next u = record u {
  tx = (read buffer_size u.tx).1;
  sent = u.sent ++ (read buffer_size u.tx).0 ∷ [];
}

-- The `switch` of the handler.
unfoldable pub handle : Uart → Source → List ℕ → Uart
unfolding receive send_next
handle u rx_ready cs = record u { rx = receive u.rx cs }
handle u timeout cs = record u { rx = receive u.rx cs }
handle u tx_empty cs = if is_empty u.tx then record u { tx_interrupt = false } else send_next u
handle u rx_status cs = u
handle u other cs = u

-- `uart_irq_handler`; no source is pending where the interrupt is spurious.
unfoldable pub uart_irq_handler : Uart → Option Source → List ℕ → Uart
unfolding handle
uart_irq_handler u none cs = u
uart_irq_handler u (some source) cs =
    handle (record u { invocation_count = (u.invocation_count + 1) % 2 ^ 64 }) source cs

-- What `uart_init_intr_mode` leaves, once the handler is registered.
unfoldable pub uart_init_intr_mode : Uart → Uart
uart_init_intr_mode u =
    if u.initialized then u else record u { initialized = true; tx_interrupt = false }

-- A round of the loop of `async_serial_putc` that waits for space.
unfoldable pub kick : Uart → Uart
kick u = if not u.tx_interrupt && not (is_empty u.tx) then record u { tx_interrupt = true } else u

-- The end of `async_serial_putc`, where the buffer was empty.
unfoldable pub start_tx : Uart → Bool → Uart
unfolding send_next
start_tx u true =
    let u' : Uart = send_next u in if is_empty u'.tx then u' else record u' { tx_interrupt = true }
start_tx u false = record u { tx_interrupt = true }

-- `async_serial_putc`; `none` where it waits, since the buffer is full.
unfoldable pub async_serial_putc : Uart → ℕ → Bool → Option Uart
unfolding start_tx
async_serial_putc u c register_empty =
    if not u.initialized
    then some (record u { sent = u.sent ++ c ∷ [] })
    else if is_full buffer_size u.tx
    then none
    else let u' : Uart = record u { tx = write buffer_size u.tx c } in
      some (if is_empty u.tx then start_tx u' register_empty else u')

unfoldable pub uart_haschar : Uart → Bool
uart_haschar u = not (is_empty u.rx)

-- `uart_try_getchar`, at a pointer that is not NULL; `none` for -1.
unfoldable pub uart_try_getchar : Uart → Option ℕ × Uart
uart_try_getchar u =
    if is_empty u.rx
    then (none, u)
    else (some (read buffer_size u.rx).0, record u { rx = (read buffer_size u.rx).1 })

unfoldable pub uart_set_echo : Uart → Bool → Uart
uart_set_echo u enable = record u { echo_enabled = enable }
