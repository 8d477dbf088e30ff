-- ===== src/Hal/Timer.antt =====
-- devkit/hal/timer.h.
use qar_mvp.Prelude.{ℕ, zero, ℤ, pos, bit_and, bit_or, ◌<<<◌, ◌==◌, if◌then◌else◌}
use qar_mvp.Mmio.{Io, ret, mmio32, load, store, set_bits, clear_bits, ◌>>=◌, ◌>>◌}

abbrev pub timer0_base : ℕ
timer0_base = 0x40005000

pub data Reg : Type 0 where
  ctrl prescale counter status irq_en cmp0 cmp0_period cmp1 cmp1_period wdt_load wdt_ctrl : Reg
  wdt_count pwm0_period pwm0_duty pwm1_period pwm1_duty pwm_status capture_ctrl : Reg
  capture0_value capture1_value : Reg

abbrev pub offset : Reg → ℕ
offset ctrl = 0x00
offset prescale = 0x04
offset counter = 0x08
offset status = 0x0C
offset irq_en = 0x10
offset cmp0 = 0x14
offset cmp0_period = 0x18
offset cmp1 = 0x1C
offset cmp1_period = 0x20
offset wdt_load = 0x24
offset wdt_ctrl = 0x28
offset wdt_count = 0x2C
offset pwm0_period = 0x30
offset pwm0_duty = 0x34
offset pwm1_period = 0x38
offset pwm1_duty = 0x3C
offset pwm_status = 0x40
offset capture_ctrl = 0x44
offset capture0_value = 0x48
offset capture1_value = 0x4C

abbrev pub reg : ℕ → Reg → ℕ
reg base r = mmio32 base (offset r)

pub data Ctrl : Type 0 where
  enable cmp0_auto cmp1_auto : Ctrl

abbrev pub ctrl_flag : Ctrl → ℕ
ctrl_flag enable = 1 <<< 0
ctrl_flag cmp0_auto = 1 <<< 1
ctrl_flag cmp1_auto = 1 <<< 2

pub data Status : Type 0 where
  cmp0 cmp1 wdt capture0 capture1 : Status

abbrev pub status_flag : Status → ℕ
status_flag cmp0 = 1 <<< 0
status_flag cmp1 = 1 <<< 1
status_flag wdt = 1 <<< 2
status_flag capture0 = 1 <<< 3
status_flag capture1 = 1 <<< 4

unfoldable pub init : ℕ → ℕ → ℕ → Io (Unit {0})
init base prescaler ctrl_flags = do
  store (reg base prescale) prescaler
  store (reg base ctrl) (bit_or ctrl_flags (ctrl_flag enable))

unfoldable pub set_compare0 : ℕ → ℕ → ℕ → Io (Unit {0})
set_compare0 base value period = do store (reg base cmp0) value; store (reg base cmp0_period) period

unfoldable pub set_compare1 : ℕ → ℕ → ℕ → Io (Unit {0})
set_compare1 base value period = do store (reg base cmp1) value; store (reg base cmp1_period) period

unfoldable pub enable_irq : ℕ → ℕ → Io (Unit {0})
enable_irq base mask = set_bits (reg base irq_en) mask

unfoldable pub disable_irq : ℕ → ℕ → Io (Unit {0})
disable_irq base mask = clear_bits (reg base irq_en) mask

unfoldable pub clear_status : ℕ → ℕ → Io (Unit {0})
clear_status base mask = store (reg base status) mask

unfoldable pub read_counter : ℕ → Io ℕ
read_counter base = load (reg base counter)

-- `(enable_now ? a : 0x0)` for an `int`.
abbrev pub when_set : ℤ → ℕ → ℕ
when_set (pos zero) a = 0x0
when_set _ a = a

unfoldable pub config_wdt : ℕ → ℕ → ℤ → Io (Unit {0})
config_wdt base period enable_now = do
  store (reg base wdt_load) period
  store (reg base wdt_ctrl) (bit_or (when_set enable_now 0x1) (when_set enable_now 0x2))

unfoldable pub kick_wdt : ℕ → Io (Unit {0})
kick_wdt base = store (reg base wdt_ctrl) 0x3

unfoldable pub config_pwm : ℕ → ℕ → ℕ → ℕ → Io (Unit {0})
config_pwm base channel period duty =
    if channel == 0
    then (do store (reg base pwm0_period) period; store (reg base pwm0_duty) duty)
    else (do store (reg base pwm1_period) period; store (reg base pwm1_duty) duty)

unfoldable pub read_pwm_status : ℕ → Io ℕ
read_pwm_status base = do v ← load (reg base pwm_status); ret (bit_and v 0x3)

unfoldable pub manual_capture : ℕ → ℕ → Io ℕ
manual_capture base channel = do
  store (reg base capture_ctrl) (if channel == 0 then 0x1 else 0x2)
  if channel == 0 then load (reg base capture0_value) else load (reg base capture1_value)
