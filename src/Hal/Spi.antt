-- ===== src/Hal/Spi.antt =====
-- devkit/hal/spi.h. The polling loops take a budget of polls.
use qar_mvp.Prelude.{ℕ, bit_or, ◌<<<◌}
use qar_mvp.Mmio.{Io, mmio32, load, store, wait_for, ◌>>◌}

abbrev pub spi0_base : ℕ
spi0_base = 0x40004000

pub data Reg : Type 0 where
  ctrl status clkdiv txdata rxdata cs irq_en irq_status fault_status : Reg

abbrev pub offset : Reg → ℕ
offset ctrl = 0x00
offset status = 0x04
offset clkdiv = 0x08
offset txdata = 0x0C
offset rxdata = 0x10
offset cs = 0x14
offset irq_en = 0x18
offset irq_status = 0x1C
offset fault_status = 0x20

abbrev pub reg : ℕ → Reg → ℕ
reg base r = mmio32 base (offset r)

pub data Ctrl : Type 0 where
  enable cpol cpha lsb_first loopback : Ctrl

abbrev pub ctrl_flag : Ctrl → ℕ
ctrl_flag enable = 1 <<< 0
ctrl_flag cpol = 1 <<< 1
ctrl_flag cpha = 1 <<< 2
ctrl_flag lsb_first = 1 <<< 3
ctrl_flag loopback = 1 <<< 4

pub data Status : Type 0 where
  tx_ready rx_valid busy fault tx_ovf rx_ovf cs_fault : Status

abbrev pub status_flag : Status → ℕ
status_flag tx_ready = 1 <<< 0
status_flag rx_valid = 1 <<< 1
status_flag busy = 1 <<< 2
status_flag fault = 1 <<< 3
status_flag tx_ovf = 1 <<< 4
status_flag rx_ovf = 1 <<< 5
status_flag cs_fault = 1 <<< 6

pub data Irq : Type 0 where
  rx_ready tx_empty fault tx_ovf rx_ovf cs_fault : Irq

abbrev pub irq_flag : Irq → ℕ
irq_flag rx_ready = 1 <<< 0
irq_flag tx_empty = 1 <<< 1
irq_flag fault = 1 <<< 2
irq_flag tx_ovf = 1 <<< 3
irq_flag rx_ovf = 1 <<< 4
irq_flag cs_fault = 1 <<< 5

unfoldable pub init : ℕ → ℕ → ℕ → Io (Unit {0})
init base clk_div ctrl_flags = do
  store (reg base clkdiv) clk_div
  store (reg base ctrl) (bit_or ctrl_flags (ctrl_flag enable))

unfoldable pub set_cs : ℕ → ℕ → Io (Unit {0})
set_cs base mask = store (reg base cs) mask

unfoldable pub write : ℕ → ℕ → ℕ → Io (Unit {0})
write budget base value = do
  wait_for budget (reg base status) (status_flag tx_ready)
  store (reg base txdata) value

unfoldable pub read : ℕ → ℕ → Io ℕ
read budget base = do
  wait_for budget (reg base status) (status_flag rx_valid)
  load (reg base rxdata)

unfoldable pub read_fault_status : ℕ → Io ℕ
read_fault_status base = load (reg base fault_status)
