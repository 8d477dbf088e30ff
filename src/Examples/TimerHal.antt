-- ===== src/Examples/TimerHal.antt =====
-- devkit/examples/timer_hal_example.c.
use qar_mvp.Prelude.{ℕ, pos, Bool, bit_and, bit_or, ◌+◌, ◌==◌, u32}
use qar_mvp.Mmio.{Io, ret, poll_until, ◌>>=◌, ◌>>◌}
use qar_mvp.Hal.Timer

-- The static `pwm_flags` and `capture_log`.
pub record Log : Type 0 where
  pub pwm_flags : ℕ
  pub capture0 : ℕ
  pub capture1 : ℕ

abbrev pub base : ℕ
base = Timer.timer0_base

-- Up to the captures.
unfoldable pub set_up : Io (Unit {0})
unfolding Timer.init Timer.set_compare0 Timer.enable_irq Timer.config_pwm Timer.config_wdt
set_up = do
  Timer.init base 0 (Timer.ctrl_flag Timer.Ctrl.cmp0_auto)
  Timer.set_compare0 base 500 500
  Timer.enable_irq base (Timer.status_flag Timer.Status.cmp0)
  Timer.config_pwm base 0 128 64
  Timer.config_pwm base 1 128 32
  Timer.config_wdt base 50000 (pos 1)

abbrev pub events : ℕ
events =
    bit_or
      (bit_or (bit_or (Timer.status_flag Timer.Status.cmp0) (Timer.status_flag Timer.Status.wdt))
        (Timer.status_flag Timer.Status.capture0))
      (Timer.status_flag Timer.Status.capture1)

-- `(qar_timer_pwm_status(base) & 0x3) == 0`
abbrev pub both_low : ℕ → Bool
both_low v = bit_and (bit_and v 0x3) 0x3 == 0

unfoldable pub timer_example : ℕ → ℕ → Io Log
unfolding Timer.manual_capture Timer.clear_status
timer_example budget pwm_flags = do
  set_up
  c0 ← Timer.manual_capture base 0
  c1 ← Timer.manual_capture base 1
  rounds ← poll_until both_low budget (Timer.reg base Timer.Reg.pwm_status)
  Timer.clear_status base events
  ret (record { pwm_flags = u32 (pwm_flags + rounds); capture0 = c0; capture1 = c1 })
