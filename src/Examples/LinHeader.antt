-- ===== src/Examples/LinHeader.antt =====
-- devkit/examples/c/lin_auto_header.c.
use qar_mvp.Prelude.{ℕ, Bool, not, pos, bit_and, ◌==◌}
use qar_mvp.Mmio.{Io, poll_until, ◌>>=◌, ◌>>◌}
use qar_mvp.Hal.Uart

abbrev pub uart_base : ℕ
uart_base = Uart.uart0_base

-- `while ((qar_uart_status(UART_BASE) & mask) == 0) ;`
abbrev pub has_flag : ℕ → ℕ → Bool
has_flag mask v = not (bit_and v mask == 0)

unfoldable pub lin_send_payload : ℕ → ℕ → ℕ → Io (Unit {0})
lin_send_payload budget byte0 byte1 = do
  Uart.write budget uart_base byte0
  Uart.write budget uart_base byte1

-- Up to the payload.
unfoldable pub set_up : Io (Unit {0})
unfolding Uart.init Uart.lin_set_break Uart.lin_set_tx_id Uart.lin_config_slave Uart.slave_word
    Uart.lin_arm_slave
set_up = do
  Uart.init uart_base 500 (Uart.ctrl_flag Uart.Ctrl.enable)
  Uart.lin_set_break uart_base 16
  Uart.lin_set_tx_id uart_base 0x3C
  Uart.lin_config_slave uart_base 0x3C 2 (pos 1)
  Uart.lin_arm_slave uart_base

-- The break and the header are started.
unfoldable pub start_header : Io (Unit {0})
unfolding Uart.lin_request_break Uart.lin_start_auto_header
start_header = do Uart.lin_request_break uart_base; Uart.lin_start_auto_header uart_base

-- The result is the `header` that the example drops.
unfoldable pub main : ℕ → Io ℕ
unfolding Uart.clear_irq Uart.lin_header_word
main budget = do
  set_up
  lin_send_payload budget 0x55 0xAA
  start_header
  rounds ←
      poll_until (has_flag (Uart.status_flag Uart.Status.lin_header)) budget
        (Uart.reg uart_base Uart.Reg.status)
  Uart.clear_irq uart_base (Uart.irq_flag Uart.Irq.lin_header)
  Uart.lin_header_word uart_base
