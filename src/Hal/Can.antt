-- ===== src/Hal/Can.antt =====
-- devkit/hal/can.h.
use qar_mvp.Prelude.{ℕ, Bool, true, false, Option, none, some, bit_and, bit_or, ◌<<<◌, ◌==◌, not}
use qar_mvp.Mmio.{Io, ret, mmio32, load, store, set_bits, clear_bits, ◌>>=◌, ◌>>◌}

abbrev pub can0_base : ℕ
can0_base = 0x40003000

pub data Reg : Type 0 where
  ctrl status bittime filter_id filter_mask irq_en irq_status tx_id tx_dlc tx_data0 : Reg
  tx_data1 tx_cmd rx_id rx_dlc rx_data0 rx_data1 rx_fifo : Reg

abbrev pub offset : Reg → ℕ
offset ctrl = 0x00
offset status = 0x04
offset bittime = 0x08
offset filter_id = 0x18
offset filter_mask = 0x1C
offset irq_en = 0x10
offset irq_status = 0x14
offset tx_id = 0x20
offset tx_dlc = 0x24
offset tx_data0 = 0x28
offset tx_data1 = 0x2C
offset tx_cmd = 0x30
offset rx_id = 0x34
offset rx_dlc = 0x38
offset rx_data0 = 0x3C
offset rx_data1 = 0x40
offset rx_fifo = 0x44

abbrev pub reg : ℕ → Reg → ℕ
reg base r = mmio32 base (offset r)

pub data Ctrl : Type 0 where
  enable loopback listen_only filter_bypass : Ctrl

abbrev pub ctrl_flag : Ctrl → ℕ
ctrl_flag enable = 1 <<< 0
ctrl_flag loopback = 1 <<< 1
ctrl_flag listen_only = 1 <<< 2
ctrl_flag filter_bypass = 1 <<< 3

pub data Status : Type 0 where
  rx_pending tx_idle rx_overflow : Status

abbrev pub status_flag : Status → ℕ
status_flag rx_pending = 1 <<< 0
status_flag tx_idle = 1 <<< 1
status_flag rx_overflow = 1 <<< 2

pub data Irq : Type 0 where
  rx_ready tx_done rx_ovf : Irq

abbrev pub irq_flag : Irq → ℕ
irq_flag rx_ready = 1 <<< 0
irq_flag tx_done = 1 <<< 1
irq_flag rx_ovf = 1 <<< 2

unfoldable pub init : ℕ → ℕ → ℕ → Io (Unit {0})
init base bit_timing ctrl_flags = do
  store (reg base bittime) bit_timing
  store (reg base ctrl) (bit_or ctrl_flags (ctrl_flag enable))

unfoldable pub set_ctrl : ℕ → ℕ → Io (Unit {0})
set_ctrl base ctrl_flags = store (reg base ctrl) ctrl_flags

unfoldable pub enable_irq : ℕ → ℕ → Io (Unit {0})
enable_irq base mask = do store (reg base irq_status) mask; set_bits (reg base irq_en) mask

unfoldable pub disable_irq : ℕ → ℕ → Io (Unit {0})
disable_irq base mask = clear_bits (reg base irq_en) mask

unfoldable pub clear_irq : ℕ → ℕ → Io (Unit {0})
clear_irq base mask = store (reg base irq_status) mask

-- `dlc` is a `uint8_t`.
unfoldable pub send_word : ℕ → ℕ → ℕ → ℕ → ℕ → Io (Unit {0})
send_word base id data0 data1 dlc = do
  store (reg base tx_id) id
  store (reg base tx_dlc) dlc
  store (reg base tx_data0) data0
  store (reg base tx_data1) data1
  store (reg base tx_cmd) 1

unfoldable pub read_rx_ready : ℕ → Io Bool
read_rx_ready base = do
  v ← load (reg base status)
  ret (not (bit_and v (status_flag rx_pending) == 0))

-- Which of the three pointers of `qar_can_read_payload` are not null.
pub record Wanted : Type 0 where
  pub id : Bool
  pub data0 : Bool
  pub data1 : Bool

-- What is stored through them; `none` where nothing is.
pub record Payload : Type 0 where
  pub id : Option ℕ
  pub data0 : Option ℕ
  pub data1 : Option ℕ

-- `if (p) *p = REG;`
abbrev pub load_if : Bool → ℕ → Io (Option ℕ)
load_if true a = load a >>= λ v. ret (some v)
load_if false a = ret none

unfoldable pub read_payload : ℕ → Wanted → Io Payload
read_payload base want = do
  i ← load_if want.id (reg base rx_id)
  d0 ← load_if want.data0 (reg base rx_data0)
  d1 ← load_if want.data1 (reg base rx_data1)
  ret (record { id = i; data0 = d0; data1 = d1 })

unfoldable pub pop_rx : ℕ → Io (Unit {0})
pop_rx base = store (reg base rx_fifo) 0x1

unfoldable pub flush_rx : ℕ → Io (Unit {0})
flush_rx base = store (reg base rx_fifo) 0x2

unfoldable pub rx_count : ℕ → Io ℕ
rx_count base = do v ← load (reg base rx_fifo); ret (bit_and v 0x7)
