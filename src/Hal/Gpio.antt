-- ===== src/Hal/Gpio.antt =====
-- devkit/hal/gpio.h.
use qar_mvp.Prelude.{ℕ}
use qar_mvp.Mmio.{Io, mmio32, load, store, ◌>>◌}

abbrev pub gpio0_base : ℕ
gpio0_base = 0x40000000

pub data Reg : Type 0 where
  dir out input out_set out_clr irq_en irq_status alt_pwm irq_rise irq_fall db_en db_cycles : Reg

abbrev pub offset : Reg → ℕ
offset dir = 0x00
offset out = 0x04
offset input = 0x08
offset out_set = 0x0C
offset out_clr = 0x10
offset irq_en = 0x14
offset irq_status = 0x18
offset alt_pwm = 0x1C
offset irq_rise = 0x20
offset irq_fall = 0x24
offset db_en = 0x28
offset db_cycles = 0x2C

abbrev pub reg : ℕ → Reg → ℕ
reg base r = mmio32 base (offset r)

unfoldable pub config_dir : ℕ → ℕ → Io (Unit {0})
config_dir base dir_mask = store (reg base dir) dir_mask

unfoldable pub write : ℕ → ℕ → Io (Unit {0})
write base value = store (reg base out) value

unfoldable pub set : ℕ → ℕ → Io (Unit {0})
set base mask = store (reg base out_set) mask

unfoldable pub clear : ℕ → ℕ → Io (Unit {0})
clear base mask = store (reg base out_clr) mask

unfoldable pub read : ℕ → Io ℕ
read base = load (reg base input)

unfoldable pub config_irq : ℕ → ℕ → ℕ → ℕ → Io (Unit {0})
config_irq base enable_mask rise_mask fall_mask = do
  store (reg base irq_en) enable_mask
  store (reg base irq_rise) rise_mask
  store (reg base irq_fall) fall_mask

-- `cycles` is a `uint16_t`.
unfoldable pub config_debounce : ℕ → ℕ → ℕ → Io (Unit {0})
config_debounce base mask cycles = do store (reg base db_en) mask; store (reg base db_cycles) cycles

unfoldable pub clear_irq : ℕ → ℕ → Io (Unit {0})
clear_irq base mask = store (reg base irq_status) mask
