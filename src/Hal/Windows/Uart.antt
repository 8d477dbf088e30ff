-- ===== src/Hal/Windows/Uart.antt =====
-- The functions of devkit/hal/uart.h and their register window.
use qar_mvp.Prelude.{
  ℕ, zero, suc, ◌≤◌, ℤ, pos, negsuc, bit_and, bit_and-le, arith, IsU32, IsByte, Bool, true, false,
  ◌==◌, not,
}
use qar_mvp.Mmio.{Io, ret, store, load, ◌>>=◌}
use qar_mvp.Mmio.Device.{Accesses->>=}
use qar_mvp.Hal.Windows.Defs.{InWindow, IsBase, Stays, discard, bit_or-IsU32, wait_for-Accesses}
use qar_mvp.Hal.Uart
use qar_mvp.Hal.Fields.{slave_word_fields, truth}
use qar_mvp.Hal.Transfers.{wait_can_write-eq-wait_for}

pub data Call : Type 0 where
  init : ℕ → ℕ → Call
  set_idle_cycles : ℕ → Call
  enable_irq : ℕ → Call
  disable_irq : ℕ → Call
  clear_irq : ℕ → Call
  config_rs485 : ℕ → Call
  lin_set_break : ℕ → Call
  lin_request_break : Call
  lin_clear_break : Call
  lin_arm_header : Call
  lin_set_tx_id : ℕ → Call
  lin_start_auto_header : Call
  lin_config_slave : ℕ → ℕ → ℤ → Call
  lin_arm_slave : Call
  lin_cancel_slave : Call
  lin_header_word : Call
  status_word : Call
  can_write : Call
  write : ℕ → ℕ → Call
  available : Call
  read : Call

-- What the call does at a base address.
abbrev pub run : ℕ → Call → Io (Unit {0})
run base (init x y) = Uart.init base x y
run base (set_idle_cycles x) = Uart.set_idle_cycles base x
run base (enable_irq x) = Uart.enable_irq base x
run base (disable_irq x) = Uart.disable_irq base x
run base (clear_irq x) = Uart.clear_irq base x
run base (config_rs485 x) = Uart.config_rs485 base x
run base (lin_set_break x) = Uart.lin_set_break base x
run base lin_request_break = Uart.lin_request_break base
run base lin_clear_break = Uart.lin_clear_break base
run base lin_arm_header = Uart.lin_arm_header base
run base (lin_set_tx_id x) = Uart.lin_set_tx_id base x
run base lin_start_auto_header = Uart.lin_start_auto_header base
run base (lin_config_slave x y z) = Uart.lin_config_slave base x y z
run base lin_arm_slave = Uart.lin_arm_slave base
run base lin_cancel_slave = Uart.lin_cancel_slave base
run base lin_header_word = discard (Uart.lin_header_word base)
run base status_word = discard (Uart.status_word base)
run base can_write = discard (Uart.can_write base)
run base (write x y) = Uart.write x base y
run base available = discard (Uart.available base)
run base read = discard (Uart.read base)

-- The arguments have the widths that the prototype gives them.
abbrev pub Fits : Call → Type 0
Fits (init x y) = IsU32 x × IsU32 y
Fits (set_idle_cycles x) = IsU32 x
Fits (enable_irq x) = IsU32 x
Fits (disable_irq x) = IsU32 x
Fits (clear_irq x) = IsU32 x
Fits (config_rs485 x) = IsU32 x
Fits (lin_set_break x) = IsU32 x
Fits lin_request_break = Unit
Fits lin_clear_break = Unit
Fits lin_arm_header = Unit
Fits (lin_set_tx_id x) = IsByte x
Fits lin_start_auto_header = Unit
Fits (lin_config_slave x y _) = IsByte x × IsByte y
Fits lin_arm_slave = Unit
Fits lin_cancel_slave = Unit
Fits lin_header_word = Unit
Fits status_word = Unit
Fits can_write = Unit
Fits (write _ y) = IsByte y
Fits available = Unit
Fits read = Unit

truth-le : (z : ℤ) → truth z ≤ 1
truth-le (pos zero) = omega arith
truth-le (pos (suc n)) = omega arith
truth-le (negsuc n) = omega arith

slave_word-IsU32 : (x y : ℕ) (z : ℤ) → IsByte x → IsByte y → IsU32 (Uart.slave_word x y z)
slave_word-IsU32 x y z hx hy = omega (arith, slave_word_fields x y z hx hy, truth-le z)

-- The rest of `qar_uart_read` behind the status, whichever way its test goes.
received :
    (base : ℕ)
    → IsBase base 0x34
    → (ready : Bool)
    → Stays base 0x34 (
        discard (elim ready as (λ _. Io ℤ) [
          | false ↦ ret (negsuc 0)
          | true ↦ load (Uart.reg base Uart.Reg.fifo) >>= λ v. ret (pos (bit_and v 0xFF))
        ]))
received base h true = omega arith
received base h false = tt

-- Whatever the call and the answers of the hardware, only words of the window are accessed,
-- and only 32-bit values are written.
pub uart_run-Stays :
    (base : ℕ) (c : Call) → IsBase base 0x34 → Fits c → Stays base 0x34 (run base c)
unfolding Uart.init Uart.set_idle_cycles Uart.enable_irq Uart.disable_irq Uart.clear_irq
    Uart.config_rs485 Uart.lin_set_break Uart.lin_request_break Uart.lin_clear_break
    Uart.lin_arm_header Uart.lin_set_tx_id Uart.lin_start_auto_header Uart.lin_config_slave
    Uart.lin_arm_slave Uart.lin_cancel_slave Uart.lin_header_word Uart.status_word Uart.can_write
    Uart.write Uart.available Uart.read
uart_run-Stays base (init x y) h f = omega (arith, bit_or-IsU32)
uart_run-Stays base (set_idle_cycles x) h f = omega arith
uart_run-Stays base (enable_irq x) h f = omega (arith, bit_or-IsU32)
uart_run-Stays base (disable_irq x) h f = omega (arith, bit_and-le)
uart_run-Stays base (clear_irq x) h f = omega arith
uart_run-Stays base (config_rs485 x) h f = omega arith
uart_run-Stays base (lin_set_break x) h f = omega arith
uart_run-Stays base lin_request_break h f = omega arith
uart_run-Stays base lin_clear_break h f = omega arith
uart_run-Stays base lin_arm_header h f = omega arith
uart_run-Stays base (lin_set_tx_id x) h f = omega arith
uart_run-Stays base lin_start_auto_header h f = omega arith
uart_run-Stays base (lin_config_slave x y z) h f = (omega arith, slave_word-IsU32 x y z f.0 f.1, tt)
uart_run-Stays base lin_arm_slave h f = omega arith
uart_run-Stays base lin_cancel_slave h f = omega arith
uart_run-Stays base lin_header_word h f = omega arith
uart_run-Stays base status_word h f = omega arith
uart_run-Stays base can_write h f = omega arith
uart_run-Stays base (write x y) h f =
    Accesses->>= (InWindow base 0x34) (Uart.wait_can_write x base)
      (λ _. store (Uart.reg base Uart.Reg.fifo) y)
      (rw wait_can_write-eq-wait_for (wait_for-Accesses _ x _ _ (omega arith))) (λ _. omega arith)
uart_run-Stays base available h f = omega arith
uart_run-Stays base read h f = (omega arith, λ v u. received base h (not (bit_and v 1 == 0)))
