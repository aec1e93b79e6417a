-- ===== src/Driver/Tests.antt =====
-- Runs of the drivers' models.
use ccoperating_system_x.Common.{
  ◌%◌, ◌≡◌, refl, true, false, some, [], ◌∷◌, ◌++◌, ◌==◌, ℕ, replicate, arith, leb, if◌then◌else◌,
}
use ccoperating_system_x.Driver.Ring.{Ring, is_empty, is_full, write, read}
use ccoperating_system_x.Driver.Ring.Fifo.{Holds, fresh-Holds}
use ccoperating_system_x.Driver.Serial.{
  Uart, fresh, send_next, uart_init_intr_mode, start_tx, async_serial_putc,
}
use ccoperating_system_x.Driver.Serial.Order.{Run, starts, puts, Sends, Run-Sends}
use ccoperating_system_x.Driver.Serial.Race.{interrupted, start_tx_race}
use ccoperating_system_x.Driver.Keyboard.{
  Keyboard, scancode_to_ascii, keyboard_irq_handler, keyboard_try_getchar,
}
use ccoperating_system_x.Driver.Keyboard.Queue.{accept, typed, keyboard_irq_handler-Holds}

abbrev empty_ring : Ring
empty_ring = record { buffer = replicate 256 0; head = 0; tail = 0 }

abbrev ready : Uart
ready = record {
  tx = empty_ring;
  rx = empty_ring;
  initialized = true;
  echo_enabled = true;
  tx_interrupt = false;
  invocation_count = 0;
  sent = [];
}

abbrev after_a : Uart
after_a = record ready {
  tx = record { buffer = 65 ∷ replicate 255 0; head = 1; tail = 1 };
  sent = 65 ∷ [];
}

-- A character that finds the buffer empty and the register free is sent at once.
put_a : async_serial_putc ready 65 true ≡ some after_a
unfolding async_serial_putc start_tx send_next is_empty is_full write read
    ccoperating_system_x.Driver.Ring.next_index
put_a = refl

ready_reached : Run ready []
unfolding fresh uart_init_intr_mode
ready_reached = starts

after_a_reached : Run after_a (65 ∷ [])
after_a_reached = puts 65 true ready_reached put_a

Run-Sends_example : Sends after_a (65 ∷ [])
Run-Sends_example = Run-Sends after_a (65 ∷ []) after_a_reached

abbrev keyboard : Keyboard
keyboard = record {
  buffer = empty_ring;
  shift_pressed = true;
  caps_lock = false;
  invocation_count = 0;
}

-- The key A with shift.
shifted : scancode_to_ascii keyboard 30 ≡ 65
unfolding scancode_to_ascii
shifted = refl

-- A press that the reader then gets.
pressed : (keyboard_try_getchar (keyboard_irq_handler keyboard 1 30)).0 ≡ some 65
unfolding keyboard_try_getchar keyboard_irq_handler is_empty is_full write read
    ccoperating_system_x.Driver.Ring.next_index
pressed = refl

keyboard_irq_handler-Holds_example :
    Holds 256
      (keyboard_irq_handler keyboard 1 30).buffer
      (if 1 % 2 == 0 then [] else accept [] (typed keyboard (30 % 128) (leb 128 30)))
keyboard_irq_handler-Holds_example =
    keyboard_irq_handler-Holds keyboard [] 1 30 (fresh-Holds 256 (omega arith))

start_tx_race_example :
    ((interrupted ready 65).sent ≡ ready.sent ++ 65 ∷ [])
    × (is_empty (interrupted ready 65).tx ≡ true)
    × ((stale : ℕ) × ((start_tx (interrupted ready 65) true).sent
          ≡ (ready.sent ++ 65 ∷ []) ++ stale ∷ []))
    × (is_empty (start_tx (interrupted ready 65) true).tx ≡ false)
start_tx_race_example = start_tx_race ready 65 (fresh-Holds 256 (omega arith))
