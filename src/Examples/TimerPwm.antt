-- ===== src/Examples/TimerPwm.antt =====
-- devkit/examples/c/timer_pwm_demo.c.
pub mod Laws
use qar_mvp.Prelude.{
  ℕ, zero, suc, ◌+◌, ◌-◌, ◌^◌, true, false, bit_or, ltb, ◌==◌, if◌then◌else◌, u32,
}
use qar_mvp.Mmio.{Io, ret, hung, load, store, ◌>>=◌, ◌>>◌}
use qar_mvp.Hal.Timer
use qar_mvp.Hal.Gpio

abbrev pub timer_base : ℕ
timer_base = Timer.timer0_base

abbrev pub gpio_base : ℕ
gpio_base = Gpio.gpio0_base

unfoldable pub pwm_config : ℕ → ℕ → ℕ → Io (Unit {0})
pwm_config period duty0 duty1 = do
  store (Timer.reg timer_base Timer.Reg.pwm0_period) period
  store (Timer.reg timer_base Timer.Reg.pwm0_duty) duty0
  store (Timer.reg timer_base Timer.Reg.pwm1_period) period
  store (Timer.reg timer_base Timer.Reg.pwm1_duty) duty1

unfoldable pub capture_start : Io (Unit {0})
capture_start = store (Timer.reg timer_base Timer.Reg.capture_ctrl) 0x3

unfoldable pub capture_read : ℕ → Io ℕ
capture_read channel =
    if channel == 0
    then load (Timer.reg timer_base Timer.Reg.capture0_value)
    else load (Timer.reg timer_base Timer.Reg.capture1_value)

-- Up to the loop.
unfoldable pub set_up : Io (Unit {0})
unfolding Timer.init pwm_config capture_start
set_up = do
  store (Gpio.reg gpio_base Gpio.Reg.alt_pwm) 0x3
  Timer.init timer_base 0 (
      bit_or (bit_or (Timer.ctrl_flag Timer.Ctrl.enable) (Timer.ctrl_flag Timer.Ctrl.cmp0_auto))
        (Timer.ctrl_flag Timer.Ctrl.cmp1_auto))
  pwm_config 1024 256 768
  capture_start

-- The body of the inner loop; `1023 - duty` wraps.
unfoldable pub ramp_step : ℕ → Io (Unit {0})
unfolding capture_read
ramp_step duty = do
  store (Timer.reg timer_base Timer.Reg.pwm0_duty) duty
  store (Timer.reg timer_base Timer.Reg.pwm1_duty) (u32 (1023 + 2 ^ 32 - duty))
  cap0 ← capture_read 0
  cap1 ← capture_read 1
  ret tt

-- `for (duty = ...; duty < 1024; duty += 64)`, with fuel for the rounds.
unfoldable pub ramp : ℕ → ℕ → Io (Unit {0})
ramp zero duty = hung
ramp (suc fuel) duty = elim (ltb duty 1024) [
  | true ↦ ramp_step duty >> ramp fuel (u32 (duty + 64))
  | false ↦ ret tt
]

-- `n` rounds of the loop around the ramp.
unfoldable pub ramps : ℕ → ℕ → Io (Unit {0})
ramps fuel zero = ret tt
ramps fuel (suc n) = ramp fuel 0 >> ramps fuel n

-- `main`, for `n` ramps.
unfoldable pub main : ℕ → ℕ → Io (Unit {0})
main fuel n = do set_up; ramps fuel n
