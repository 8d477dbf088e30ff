-- ===== src/Hal/Adc.antt =====
-- devkit/hal/adc.h.
use qar_mvp.Prelude.{ℕ, bit_and, bit_or, ◌<<<◌, ◌>>>◌, u32}
use qar_mvp.Mmio.{Io, mmio32, load, store, set_bits, ◌>>◌}

abbrev pub adc0_base : ℕ
adc0_base = 0x40006000

pub data Reg : Type 0 where
  ctrl status result irq_en irq_status seq_mask sample_div : Reg

abbrev pub offset : Reg → ℕ
offset ctrl = 0x00
offset status = 0x04
offset result = 0x08
offset irq_en = 0x0C
offset irq_status = 0x10
offset seq_mask = 0x14
offset sample_div = 0x18

abbrev pub reg : ℕ → Reg → ℕ
reg base r = mmio32 base (offset r)

pub data Ctrl : Type 0 where
  enable continuous start : Ctrl

abbrev pub ctrl_flag : Ctrl → ℕ
ctrl_flag enable = 1 <<< 0
ctrl_flag continuous = 1 <<< 1
ctrl_flag start = 1 <<< 2

abbrev pub ctrl_channel_shift : ℕ
ctrl_channel_shift = 4

pub data Irq : Type 0 where
  data_ready overrun : Irq

abbrev pub irq_flag : Irq → ℕ
irq_flag data_ready = 1 <<< 0
irq_flag overrun = 1 <<< 1

unfoldable pub result_value : ℕ → ℕ
result_value val = bit_and val 0xFFF

unfoldable pub result_channel : ℕ → ℕ
result_channel val = bit_and (val >>> 16) 0xF

-- `sample_div` is a `uint16_t`.
unfoldable pub set_sequence : ℕ → ℕ → ℕ → Io (Unit {0})
set_sequence base mask divider = do
  store (reg base seq_mask) (bit_and mask 0xF)
  store (reg base sample_div) divider

unfoldable pub enable_continuous : ℕ → ℕ → ℕ → Io (Unit {0})
unfolding set_sequence
enable_continuous base mask divider = do
  set_sequence base mask divider
  store (reg base ctrl) (bit_or (ctrl_flag enable) (ctrl_flag continuous))

unfoldable pub disable_continuous : ℕ → Io (Unit {0})
disable_continuous base = store (reg base ctrl) (ctrl_flag enable)

-- The word that `qar_adc_start_single` writes.
unfoldable pub single_word : ℕ → ℕ
single_word channel =
    bit_or (bit_or (ctrl_flag enable) (u32 (bit_and channel 0x3 <<< ctrl_channel_shift)))
      (ctrl_flag start)

unfoldable pub start_single : ℕ → ℕ → Io (Unit {0})
unfolding single_word
start_single base channel = store (reg base ctrl) (single_word channel)

unfoldable pub read_status : ℕ → Io ℕ
read_status base = load (reg base status)

unfoldable pub read_result : ℕ → Io ℕ
read_result base = load (reg base result)

unfoldable pub enable_irq : ℕ → ℕ → Io (Unit {0})
enable_irq base mask = set_bits (reg base irq_en) mask

unfoldable pub clear_irq : ℕ → ℕ → Io (Unit {0})
clear_irq base mask = store (reg base irq_status) mask
