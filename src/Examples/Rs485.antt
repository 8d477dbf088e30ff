-- ===== src/Examples/Rs485.antt =====
-- devkit/examples/c/uart_rs485.c and devkit/examples/c/uart_rs485_isr.c.
pub mod Laws
pub mod Counts
use qar_mvp.Prelude.{ℕ, ◌+◌, Bool, not, bit_and, ◌==◌, if◌then◌else◌, u32}
use qar_mvp.Mmio.{Io, ret, poll_until, ◌>>=◌, ◌>>◌}
use qar_mvp.Hal.Uart

abbrev pub uart_base : ℕ
uart_base = Uart.uart0_base

unfoldable pub send_byte : ℕ → ℕ → Io (Unit {0})
send_byte budget b = Uart.write budget uart_base b

-- Up to the transmission.
unfoldable pub set_up : Io (Unit {0})
unfolding Uart.init Uart.config_rs485 Uart.enable_irq Uart.set_idle_cycles
set_up = do
  Uart.init uart_base 500 (Uart.ctrl_flag Uart.Ctrl.enable)
  Uart.config_rs485 uart_base 0x1
  Uart.enable_irq uart_base (Uart.irq_flag Uart.Irq.idle)
  Uart.set_idle_cycles uart_base 1000

-- `(qar_uart_status(UART_BASE) & QAR_UART_STATUS_IDLE) != 0`
abbrev pub is_idle : ℕ → Bool
is_idle v = not (bit_and v (Uart.status_flag Uart.Status.idle) == 0)

unfoldable pub main : ℕ → Io (Unit {0})
unfolding send_byte Uart.clear_irq
main budget = do
  set_up
  send_byte budget 0x33
  send_byte budget 0x55
  rounds ← poll_until is_idle budget (Uart.reg uart_base Uart.Reg.status)
  Uart.clear_irq uart_base (Uart.irq_flag Uart.Irq.idle)

-- The handler on the global `idle_count`, with its new value as the result.
unfoldable pub uart_isr : ℕ → Io ℕ
unfolding Uart.status_word Uart.clear_irq
uart_isr idle_count = do
  status ← Uart.status_word uart_base
  if is_idle status
      then (do Uart.clear_irq uart_base (Uart.irq_flag Uart.Irq.idle); ret (u32 (idle_count + 1)))
      else ret idle_count

-- The configuration that `main` of uart_rs485_isr.c begins with.
unfoldable pub isr_set_up : Io (Unit {0})
unfolding Uart.init Uart.set_idle_cycles Uart.enable_irq
isr_set_up = do
  Uart.init uart_base 500 (Uart.ctrl_flag Uart.Ctrl.enable)
  Uart.set_idle_cycles uart_base 1000
  Uart.enable_irq uart_base (Uart.irq_flag Uart.Irq.idle)

-- `main` of uart_rs485_isr.c. It calls a `send_byte` that no file declares, here a parameter.
unfoldable pub isr_main : (ℕ → ℕ → Io (Unit {0})) → Io (Unit {0})
isr_main send = do isr_set_up; send uart_base 0x33; send uart_base 0x55
