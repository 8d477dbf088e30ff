-- ===== src/Hal/Uart.antt =====
-- devkit/hal/uart.h. The polling loop of `qar_uart_write` takes a budget of polls.
use qar_mvp.Prelude.{
  ℕ, suc, zero, Bool, true, false, ℤ, pos, negsuc, bit_and, bit_or, ◌<<<◌, ◌==◌, not,
}
use qar_mvp.Mmio.{Io, ret, hung, mmio32, load, store, set_bits, clear_bits, ◌>>=◌, ◌>>◌}

abbrev pub uart0_base : ℕ
uart0_base = 0x40001000

abbrev pub uart1_base : ℕ
uart1_base = 0x40002000

pub data Reg : Type 0 where
  fifo status ctrl baud irq_en irq_status rs485 idle_cfg lin_ctrl lin_cmd lin_tx_id : Reg
  lin_header lin_slave : Reg

abbrev pub offset : Reg → ℕ
offset fifo = 0x00
offset status = 0x04
offset ctrl = 0x08
offset baud = 0x0C
offset irq_en = 0x10
offset irq_status = 0x14
offset rs485 = 0x18
offset idle_cfg = 0x1C
offset lin_ctrl = 0x20
offset lin_cmd = 0x24
offset lin_tx_id = 0x28
offset lin_header = 0x2C
offset lin_slave = 0x30

abbrev pub reg : ℕ → Reg → ℕ
reg base r = mmio32 base (offset r)

pub data Ctrl : Type 0 where
  enable parity_en parity_odd two_stop : Ctrl

abbrev pub ctrl_flag : Ctrl → ℕ
ctrl_flag enable = 1 <<< 0
ctrl_flag parity_en = 1 <<< 1
ctrl_flag parity_odd = 1 <<< 2
ctrl_flag two_stop = 1 <<< 3

pub data Status : Type 0 where
  rx_ready tx_space framing overrun tx_busy parity idle lin_break lin_header lin_syncerr : Status
  lin_resp lin_underflow : Status

abbrev pub status_flag : Status → ℕ
status_flag rx_ready = 1 <<< 0
status_flag tx_space = 1 <<< 1
status_flag framing = 1 <<< 2
status_flag overrun = 1 <<< 3
status_flag tx_busy = 1 <<< 4
status_flag parity = 1 <<< 5
status_flag idle = 1 <<< 6
status_flag lin_break = 1 <<< 7
status_flag lin_header = 1 <<< 8
status_flag lin_syncerr = 1 <<< 9
status_flag lin_resp = 1 <<< 10
status_flag lin_underflow = 1 <<< 11

pub data Irq : Type 0 where
  rx_ready tx_empty error idle lin_break lin_header lin_slave : Irq

abbrev pub irq_flag : Irq → ℕ
irq_flag rx_ready = 1 <<< 0
irq_flag tx_empty = 1 <<< 1
irq_flag error = 1 <<< 2
irq_flag idle = 1 <<< 3
irq_flag lin_break = 1 <<< 4
irq_flag lin_header = 1 <<< 5
irq_flag lin_slave = 1 <<< 6

unfoldable pub init : ℕ → ℕ → ℕ → Io (Unit {0})
init base baud_divider ctrl_flags = do
  store (reg base baud) baud_divider
  store (reg base ctrl) (bit_or ctrl_flags (ctrl_flag enable))
  store (reg base irq_en) 0x0
  store (reg base idle_cfg) 0
  store (reg base lin_ctrl) 13

unfoldable pub set_idle_cycles : ℕ → ℕ → Io (Unit {0})
set_idle_cycles base cycles = store (reg base idle_cfg) cycles

unfoldable pub enable_irq : ℕ → ℕ → Io (Unit {0})
enable_irq base mask = set_bits (reg base irq_en) mask

unfoldable pub disable_irq : ℕ → ℕ → Io (Unit {0})
disable_irq base mask = clear_bits (reg base irq_en) mask

unfoldable pub clear_irq : ℕ → ℕ → Io (Unit {0})
clear_irq base mask = store (reg base irq_status) mask

unfoldable pub config_rs485 : ℕ → ℕ → Io (Unit {0})
config_rs485 base value = store (reg base rs485) value

unfoldable pub lin_set_break : ℕ → ℕ → Io (Unit {0})
lin_set_break base bit_periods = store (reg base lin_ctrl) bit_periods

unfoldable pub lin_request_break : ℕ → Io (Unit {0})
lin_request_break base = store (reg base lin_cmd) 0x1

unfoldable pub lin_clear_break : ℕ → Io (Unit {0})
lin_clear_break base = store (reg base lin_cmd) 0x2

unfoldable pub lin_arm_header : ℕ → Io (Unit {0})
lin_arm_header base = store (reg base lin_cmd) 0x4

-- `id` is a `uint8_t`.
unfoldable pub lin_set_tx_id : ℕ → ℕ → Io (Unit {0})
lin_set_tx_id base id = store (reg base lin_tx_id) id

unfoldable pub lin_start_auto_header : ℕ → Io (Unit {0})
lin_start_auto_header base = store (reg base lin_cmd) 0x8

-- The word that `qar_uart_lin_config_slave` writes; `match_id` and `length` are `uint8_t`, and
-- `enable` is an `int` that is tested for being non-zero.
unfoldable pub slave_word : ℕ → ℕ → ℤ → ℕ
slave_word match_id length en =
    let value = bit_or (match_id <<< 8) (bit_and length 0xFF) in
    elim en [ pos zero ↦ value | _ ↦ bit_or value (1 <<< 16) ]

unfoldable pub lin_config_slave : ℕ → ℕ → ℕ → ℤ → Io (Unit {0})
unfolding slave_word
lin_config_slave base match_id length en =
    store (reg base lin_slave) (slave_word match_id length en)

unfoldable pub lin_arm_slave : ℕ → Io (Unit {0})
lin_arm_slave base = store (reg base lin_cmd) 0x10

unfoldable pub lin_cancel_slave : ℕ → Io (Unit {0})
lin_cancel_slave base = store (reg base lin_cmd) 0x20

unfoldable pub lin_header_word : ℕ → Io ℕ
lin_header_word base = load (reg base lin_header)

unfoldable pub status_word : ℕ → Io ℕ
status_word base = load (reg base status)

unfoldable pub can_write : ℕ → Io Bool
can_write base = do v ← load (reg base status); ret (not (bit_and v (status_flag tx_space) == 0))

-- `while (!qar_uart_can_write(base)) ;` with a budget of polls.
unfoldable pub wait_can_write : ℕ → ℕ → Io (Unit {0})
unfolding can_write
wait_can_write zero base = hung
wait_can_write (suc budget) base =
    can_write base >>= λ free. elim free [ true ↦ ret tt | false ↦ wait_can_write budget base ]

unfoldable pub write : ℕ → ℕ → ℕ → Io (Unit {0})
write budget base byte = do wait_can_write budget base; store (reg base fifo) byte

unfoldable pub available : ℕ → Io Bool
available base = do v ← load (reg base status); ret (not (bit_and v (status_flag rx_ready) == 0))

unfoldable pub read : ℕ → Io ℤ
unfolding available
read base = do
  ready ← available base
  elim ready [
    | false ↦ ret (negsuc 0)
    | true ↦ load (reg base fifo) >>= λ v. ret (pos (bit_and v 0xFF))
  ]
