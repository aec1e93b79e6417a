-- ===== src/Driver/Serial/Order.antt =====
-- What goes through the two buffers of kernel/driver/serial/serial_intr.c, and in which order.
use ccoperating_system_x.Common.{
  ◌⊎◌, ◌&&◌, not, ℕ, ◌≡◌, refl, sym, ap, ◌∙◌, Bool, true, false, not, Option, none, some, List, [],
  ◌∷◌, ◌++◌, if◌then◌else◌, arith, Bool-cases, inl, inr, length-append, append_assoc,
}
use ccoperating_system_x.Driver.Ring.{is_empty, is_full, write, read}
use ccoperating_system_x.Driver.Ring.Fifo.{
  Holds, is_empty_lem, is_full_lem, write-Holds, read-Holds, fresh-Holds,
}
use ccoperating_system_x.Driver.Serial.{
  Uart, Source, rx_ready, tx_empty, rx_status, timeout, other, buffer_size, fresh, send_next,
  handle, uart_irq_handler, uart_init_intr_mode, kick, start_tx, async_serial_putc,
  uart_try_getchar,
}

-- The states that are reached while `cs` was put: any interrupts come between the calls.
-- A call is one step behind its wait; Driver.Serial.Race has an interrupt inside it.
pub data Run : Uart → List ℕ → Type 0 where
  starts : Run (uart_init_intr_mode fresh) []
  interrupts :
      {u : Uart} {cs : List ℕ} (source : Option Source) (available : List ℕ)
      → Run u cs
      → Run (uart_irq_handler u source available) cs
  kicks : {u : Uart} {cs : List ℕ} → Run u cs → Run (kick u) cs
  gets : {u : Uart} {cs : List ℕ} → Run u cs → Run (uart_try_getchar u).1 cs
  puts :
      {u u' : Uart} {cs : List ℕ} (c : ℕ) (register_empty : Bool)
      → Run u cs
      → async_serial_putc u c register_empty ≡ some u'
      → Run u' (cs ++ c ∷ [])

-- What was sent and what is buffered, one behind the other, is `cs`.
pub record Sends (u : Uart) (cs : List ℕ) : Type 0 where
  pub ready : u.initialized ≡ true
  pub queue : List ℕ
  pub holds : Holds buffer_size u.tx queue
  pub order : u.sent ++ queue ≡ cs

-- The oldest character of a buffer that is not empty goes to the register.
sends_oldest :
    (u : Uart) (cs queue : List ℕ)
    → u.initialized ≡ true
    → Holds buffer_size u.tx queue
    → u.sent ++ queue ≡ cs
    → is_empty u.tx ≡ false
    → Sends (send_next u) cs
unfolding send_next
sends_oldest u cs [] i h o e = let l = is_empty_lem buffer_size u.tx [] h in absurd cc
sends_oldest u cs (c ∷ q) i h o e =
    let r = read-Holds buffer_size u.tx c q h in
    record {
      ready = i;
      queue = q;
      holds = r.1;
      order =
          append_assoc u.sent ((read buffer_size u.tx).0 ∷ []) q
          ∙ ap (λ x. u.sent ++ x ∷ q) r.0
          ∙ o;
    }

send_next-Sends :
    (u : Uart) (cs : List ℕ) → Sends u cs → is_empty u.tx ≡ false → Sends (send_next u) cs
send_next-Sends u cs v e = sends_oldest u cs v.queue v.ready v.holds v.order e

-- What the state keeps beside these does not matter.
keep :
    (u u' : Uart) (cs : List ℕ)
    → Sends u cs
    → u'.initialized ≡ u.initialized
    → u'.tx ≡ u.tx
    → u'.sent ≡ u.sent
    → Sends u' cs
keep u u' cs v i t s = record {
  ready = i ∙ v.ready;
  queue = v.queue;
  holds = rw t v.holds;
  order = ap (λ x. x ++ v.queue) s ∙ v.order;
}

start_tx-Sends :
    (u : Uart) (cs : List ℕ) (b : Bool)
    → Sends u cs
    → is_empty u.tx ≡ false
    → Sends (start_tx u b) cs
unfolding start_tx
start_tx-Sends u cs true v e =
    let w = send_next-Sends u cs v e in
    elim (Bool-cases (is_empty (send_next u).tx)) [
      | inl e' ↦ rw e' w
      | inr e' ↦ rw e' (keep (send_next u) _ cs w refl refl refl)
    ]
start_tx-Sends u cs false v e = keep u _ cs v refl refl refl

handle-Sends :
    (u : Uart) (cs : List ℕ) (source : Source) (available : List ℕ)
    → Sends u cs
    → Sends (handle u source available) cs
unfolding handle
handle-Sends u cs rx_ready a v = keep u _ cs v refl refl refl
handle-Sends u cs timeout a v = keep u _ cs v refl refl refl
handle-Sends u cs tx_empty a v = elim (Bool-cases (is_empty u.tx)) [
  | inl e ↦ rw e (keep u _ cs v refl refl refl)
  | inr e ↦ rw e (send_next-Sends u cs v e)
]
handle-Sends u cs rx_status a v = v
handle-Sends u cs other a v = v

-- A character that is accepted goes behind those put before.
written-Sends :
    (u : Uart) (cs : List ℕ) (c : ℕ)
    → Sends u cs
    → is_full buffer_size u.tx ≡ false
    → Sends (record u { tx = write buffer_size u.tx c }) (cs ++ c ∷ [])
written-Sends u cs c v e =
    let l = is_full_lem buffer_size u.tx v.queue v.holds in
    record {
      ready = v.ready;
      queue = v.queue ++ c ∷ [];
      holds = write-Holds buffer_size u.tx v.queue c v.holds (ground (arith, v.holds.fits));
      order = sym (append_assoc u.sent v.queue (c ∷ [])) ∙ ap (λ x. x ++ c ∷ []) v.order;
    }

written_is_not_empty :
    (u : Uart) (cs : List ℕ) (c : ℕ)
    → Sends u cs
    → is_full buffer_size u.tx ≡ false
    → is_empty (write buffer_size u.tx c) ≡ false
written_is_not_empty u cs c v e =
    let l = is_full_lem buffer_size u.tx v.queue v.holds in
    let h = write-Holds buffer_size u.tx v.queue c v.holds (ground (arith, v.holds.fits)) in
    is_empty_lem buffer_size (write buffer_size u.tx c) (v.queue ++ c ∷ []) h
    ∙ ground (arith, length-append v.queue (c ∷ []))

accept-Sends :
    (u : Uart) (cs : List ℕ) (c : ℕ) (b : Bool)
    → Sends u cs
    → is_full buffer_size u.tx ≡ false
    → Sends
        (if is_empty u.tx
          then start_tx (record u { tx = write buffer_size u.tx c }) b
          else record u { tx = write buffer_size u.tx c })
        (cs ++ c ∷ [])
accept-Sends u cs c b v e =
    let w = written-Sends u cs c v e in
    elim (Bool-cases (is_empty u.tx)) [
      | inl y ↦ rw y (start_tx-Sends _ _ b w (written_is_not_empty u cs c v e))
      | inr n ↦ rw n w
    ]

putc-cases :
    (u : Uart) (cs : List ℕ) (c : ℕ) (b : Bool)
    → Sends u cs
    → (async_serial_putc u c b ≡ none)
      ⊎ ((u' : Uart) × (async_serial_putc u c b ≡ some u') × Sends u' (cs ++ c ∷ []))
unfolding async_serial_putc
putc-cases u cs c b v = elim (Bool-cases (is_full buffer_size u.tx)) [
  | inl e ↦ inl (ground (arith, v.ready))
  | inr e ↦ inr (_, ground (arith, v.ready), accept-Sends u cs c b v e)
]

some_inj : (u u' : Uart) → some u ≡ some u' → u ≡ u'
some_inj u u' e = cc

putc-Sends :
    (u u' : Uart) (cs : List ℕ) (c : ℕ) (b : Bool)
    → Sends u cs
    → async_serial_putc u c b ≡ some u'
    → Sends u' (cs ++ c ∷ [])
putc-Sends u u' cs c b v e = elim (putc-cases u cs c b v) [
  | inl n ↦ absurd cc
  | inr (w, s, k) ↦ rw (sym (some_inj w u' (sym s ∙ e))) k
]

kick-Sends : (u : Uart) (cs : List ℕ) → Sends u cs → Sends (kick u) cs
unfolding kick
kick-Sends u cs v = elim (Bool-cases (not u.tx_interrupt && not (is_empty u.tx))) [
  | inl e ↦ rw e (keep u _ cs v refl refl refl)
  | inr e ↦ rw e v
]

get-Sends : (u : Uart) (cs : List ℕ) → Sends u cs → Sends (uart_try_getchar u).1 cs
unfolding uart_try_getchar
get-Sends u cs v = elim (Bool-cases (is_empty u.rx)) [
  | inl e ↦ rw e v
  | inr e ↦ rw e (keep u _ cs v refl refl refl)
]

irq-Sends :
    (u : Uart) (cs : List ℕ) (source : Option Source) (a : List ℕ)
    → Sends u cs
    → Sends (uart_irq_handler u source a) cs
unfolding uart_irq_handler
irq-Sends u cs none a v = v
irq-Sends u cs (some s) a v = handle-Sends _ cs s a (keep u _ cs v refl refl refl)

start-Sends : Sends (uart_init_intr_mode fresh) []
unfolding uart_init_intr_mode fresh
start-Sends = record {
  ready = refl;
  queue = [];
  holds = fresh-Holds buffer_size (omega arith);
  order = refl;
}

-- Whatever interrupts, waiting rounds and reads come between the calls of `async_serial_putc`,
-- the characters written to the data register are, in order, those that were put, less those
-- that the transmit buffer still holds: none is lost, doubled or overtaken.
pub Run-Sends : (u : Uart) (cs : List ℕ) → Run u cs → Sends u cs
Run-Sends u cs starts = start-Sends
Run-Sends u cs (interrupts s a r) = irq-Sends _ cs s a (Run-Sends _ cs r)
Run-Sends u cs (kicks r) = kick-Sends _ cs (Run-Sends _ cs r)
Run-Sends u cs (gets r) = get-Sends _ cs (Run-Sends _ cs r)
Run-Sends u cs (puts c b r e) = putc-Sends _ u _ c b (Run-Sends _ _ r) e
