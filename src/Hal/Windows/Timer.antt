-- ===== src/Hal/Windows/Timer.antt =====
-- The functions of devkit/hal/timer.h and their register window.
use qar_mvp.Prelude.{
  ℕ, zero, suc, ℤ, pos, negsuc, bit_and-le, arith, IsU32, ◌==◌, Bool-cases, inl, inr,
}
use qar_mvp.Mmio.{Io}
use qar_mvp.Hal.Windows.Defs.{IsBase, Stays, discard, bit_or-IsU32}
use qar_mvp.Hal.Timer

pub data Call : Type 0 where
  init : ℕ → ℕ → Call
  set_compare0 : ℕ → ℕ → Call
  set_compare1 : ℕ → ℕ → Call
  enable_irq : ℕ → Call
  disable_irq : ℕ → Call
  clear_status : ℕ → Call
  read_counter : Call
  config_wdt : ℕ → ℤ → Call
  kick_wdt : Call
  config_pwm : ℕ → ℕ → ℕ → Call
  read_pwm_status : Call
  manual_capture : ℕ → Call

-- What the call does at a base address.
abbrev pub run : ℕ → Call → Io (Unit {0})
run base (init x y) = Timer.init base x y
run base (set_compare0 x y) = Timer.set_compare0 base x y
run base (set_compare1 x y) = Timer.set_compare1 base x y
run base (enable_irq x) = Timer.enable_irq base x
run base (disable_irq x) = Timer.disable_irq base x
run base (clear_status x) = Timer.clear_status base x
run base read_counter = discard (Timer.read_counter base)
run base (config_wdt x y) = Timer.config_wdt base x y
run base kick_wdt = Timer.kick_wdt base
run base (config_pwm x y z) = Timer.config_pwm base x y z
run base read_pwm_status = discard (Timer.read_pwm_status base)
run base (manual_capture x) = discard (Timer.manual_capture base x)

-- The arguments have the widths that the prototype gives them.
abbrev pub Fits : Call → Type 0
Fits (init x y) = IsU32 x × IsU32 y
Fits (set_compare0 x y) = IsU32 x × IsU32 y
Fits (set_compare1 x y) = IsU32 x × IsU32 y
Fits (enable_irq x) = IsU32 x
Fits (disable_irq x) = IsU32 x
Fits (clear_status x) = IsU32 x
Fits read_counter = Unit
Fits (config_wdt x _) = IsU32 x
Fits kick_wdt = Unit
Fits (config_pwm x y z) = IsU32 x × IsU32 y × IsU32 z
Fits read_pwm_status = Unit
Fits (manual_capture x) = IsU32 x

-- Whatever the call and the answers of the hardware, only words of the window are accessed,
-- and only 32-bit values are written.
pub timer_run-Stays :
    (base : ℕ) (c : Call) → IsBase base 0x50 → Fits c → Stays base 0x50 (run base c)
unfolding Timer.init Timer.set_compare0 Timer.set_compare1 Timer.enable_irq Timer.disable_irq
    Timer.clear_status Timer.read_counter Timer.config_wdt Timer.kick_wdt Timer.config_pwm
    Timer.read_pwm_status Timer.manual_capture
timer_run-Stays base (init x y) h f = omega (arith, bit_or-IsU32)
timer_run-Stays base (set_compare0 x y) h f = omega arith
timer_run-Stays base (set_compare1 x y) h f = omega arith
timer_run-Stays base (enable_irq x) h f = omega (arith, bit_or-IsU32)
timer_run-Stays base (disable_irq x) h f = omega (arith, bit_and-le)
timer_run-Stays base (clear_status x) h f = omega arith
timer_run-Stays base read_counter h f = omega arith
timer_run-Stays base (config_wdt x (pos zero)) h f = omega arith
timer_run-Stays base (config_wdt x (pos (suc n))) h f = omega arith
timer_run-Stays base (config_wdt x (negsuc n)) h f = omega arith
timer_run-Stays base kick_wdt h f = omega arith
timer_run-Stays base (config_pwm x y z) h f = elim (Bool-cases (x == 0)) [
  | inl first ↦ rw first (omega arith)
  | inr second ↦ rw second (omega arith)
]
timer_run-Stays base read_pwm_status h f = omega arith
timer_run-Stays base (manual_capture x) h f = elim (Bool-cases (x == 0)) [
  | inl first ↦ rw first (omega arith)
  | inr second ↦ rw second (omega arith)
]
