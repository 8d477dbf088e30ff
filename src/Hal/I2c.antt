-- ===== src/Hal/I2c.antt =====
-- devkit/hal/i2c.h.
use qar_mvp.Prelude.{ℕ, bit_and, u8, ◌<<<◌}
use qar_mvp.Mmio.{Io, ret, mmio32, load, store, ◌>>=◌, ◌>>◌}

abbrev pub i2c0_base : ℕ
i2c0_base = 0x40004400

pub data Reg : Type 0 where
  ctrl clkdiv status irq_en irq_status txdata rxdata cmd fault_status : Reg

abbrev pub offset : Reg → ℕ
offset ctrl = 0x00
offset clkdiv = 0x04
offset status = 0x08
offset irq_en = 0x0C
offset irq_status = 0x10
offset txdata = 0x14
offset rxdata = 0x18
offset cmd = 0x1C
offset fault_status = 0x20

abbrev pub reg : ℕ → Reg → ℕ
reg base r = mmio32 base (offset r)

abbrev pub ctrl_enable : ℕ
ctrl_enable = 1 <<< 0

pub data Status : Type 0 where
  busy rx_rdy tx_empty fault rx_ovf tx_ovf : Status

abbrev pub status_flag : Status → ℕ
status_flag busy = 1 <<< 0
status_flag rx_rdy = 1 <<< 1
status_flag tx_empty = 1 <<< 2
status_flag fault = 1 <<< 3
status_flag rx_ovf = 1 <<< 4
status_flag tx_ovf = 1 <<< 5

pub data Irq : Type 0 where
  rx_ready tx_empty fault tx_ovf rx_ovf nack : Irq

abbrev pub irq_flag : Irq → ℕ
irq_flag rx_ready = 1 <<< 0
irq_flag tx_empty = 1 <<< 1
irq_flag fault = 1 <<< 2
irq_flag tx_ovf = 1 <<< 3
irq_flag rx_ovf = 1 <<< 4
irq_flag nack = 1 <<< 5

pub data Cmd : Type 0 where
  start stop write read : Cmd

abbrev pub cmd_flag : Cmd → ℕ
cmd_flag start = 1 <<< 0
cmd_flag stop = 1 <<< 1
cmd_flag write = 1 <<< 2
cmd_flag read = 1 <<< 3

unfoldable pub init : ℕ → ℕ → Io (Unit {0})
init base clk_divider = do store (reg base clkdiv) clk_divider; store (reg base ctrl) ctrl_enable

-- `byte` is a `uint8_t`.
unfoldable pub stage_tx : ℕ → ℕ → Io (Unit {0})
stage_tx base byte = store (reg base txdata) byte

unfoldable pub issue_cmd : ℕ → ℕ → Io (Unit {0})
issue_cmd base command = store (reg base cmd) command

unfoldable pub pop_rx : ℕ → Io ℕ
pop_rx base = do v ← load (reg base rxdata); ret (u8 (bit_and v 0xFF))

unfoldable pub read_fault_status : ℕ → Io ℕ
read_fault_status base = load (reg base fault_status)
