-- ===== src/Examples/Mapped/Timed.antt =====
-- The examples of the pins and the timer.
use qar_mvp.Prelude.{
  ℕ, zero, suc, ◌+◌, ◌<◌, Bool, true, false, arith, IsU32, bit_and, ◌==◌, ltb, if◌then◌else◌, ◌⊎◌,
  inl, inr, Bool-cases, u32,
}
use qar_mvp.Mmio.{ret, Accesses}
use qar_mvp.Mmio.Device.{Accesses-mono}
use qar_mvp.Hal.Windows.Defs.{InWindow, bit_or-IsU32}
use qar_mvp.Examples.Mapped.Parts.{poll_then, then_part, reassociate}
use qar_mvp.Hal.Gpio
use qar_mvp.Hal.Timer
use qar_mvp.Examples.GpioIrq
use qar_mvp.Examples.TimerPwm
use qar_mvp.Examples.TimerHal

abbrev pub InTimer : ℕ → Type 0
InTimer = InWindow 0x40005000 0x50

-- The registers of the pins or those of the timer.
abbrev pub InGpioOrTimer : ℕ → Type 0
InGpioOrTimer a = InWindow 0x40000000 0x30 a ⊎ InTimer a

timer_set_up-Accesses : Accesses InTimer TimerHal.set_up
unfolding TimerHal.set_up Timer.init Timer.set_compare0 Timer.enable_irq Timer.config_pwm
    Timer.config_wdt
timer_set_up-Accesses = omega (arith, bit_or-IsU32)

pub timer_example-Accesses :
    (budget pwm_flags : ℕ) → Accesses InTimer (TimerHal.timer_example budget pwm_flags)
unfolding TimerHal.timer_example Timer.manual_capture Timer.clear_status
timer_example-Accesses budget pwm_flags =
    then_part InTimer TimerHal.set_up _ timer_set_up-Accesses (
      omega arith,
      omega arith,
      (
        omega arith,
        λ c0 u. (
          omega arith,
          omega arith,
          (omega arith, λ c1 v. poll_then InTimer _ budget _ _ (omega arith) (λ n. omega arith)),
        ),
      ),
    )

pwm_set_up-Accesses : Accesses InGpioOrTimer TimerPwm.set_up
unfolding TimerPwm.set_up TimerPwm.pwm_config TimerPwm.capture_start Timer.init
pwm_set_up-Accesses = ground arith

delay-Accesses : (budget ticks : ℕ) → Accesses InGpioOrTimer (GpioIrq.firmware_delay budget ticks)
unfolding GpioIrq.firmware_delay
delay-Accesses budget ticks = (
  inr (omega arith),
  λ v u.
      poll_then InGpioOrTimer (GpioIrq.elapsed v ticks) budget GpioIrq.counter (λ n. ret tt)
        (inr (omega arith)) (λ n. tt),
)

ramp_step-Accesses : (duty : ℕ) → duty < 1024 → Accesses InTimer (TimerPwm.ramp_step duty)
unfolding TimerPwm.ramp_step TimerPwm.capture_read
ramp_step-Accesses duty below = omega arith

ramp-Accesses : (fuel duty : ℕ) → Accesses InTimer (TimerPwm.ramp fuel duty)
unfolding TimerPwm.ramp
ramp-Accesses zero duty = tt
ramp-Accesses (suc fuel) duty = elim (Bool-cases (ltb duty 1024)) [
  | inr over ↦ rw (over, Accesses) tt
  | inl below ↦
      rw (below, Accesses)
        (then_part InTimer (TimerPwm.ramp_step duty) _ (ramp_step-Accesses duty (ground arith))
          (ramp-Accesses fuel (u32 (duty + 64))))
]

ramps-Accesses : (fuel n : ℕ) → Accesses InTimer (TimerPwm.ramps fuel n)
unfolding TimerPwm.ramps
ramps-Accesses fuel zero = tt
ramps-Accesses fuel (suc n) =
    then_part InTimer (TimerPwm.ramp fuel 0) _ (ramp-Accesses fuel 0) (ramps-Accesses fuel n)

pub pwm_demo-Accesses : (fuel n : ℕ) → Accesses InGpioOrTimer (TimerPwm.main fuel n)
unfolding TimerPwm.main
pwm_demo-Accesses fuel n = then_part InGpioOrTimer TimerPwm.set_up _ pwm_set_up-Accesses (
    Accesses-mono InTimer InGpioOrTimer (TimerPwm.ramps fuel n) (λ a h. inr h)
      (ramps-Accesses fuel n))

gpio_set_up-Accesses : Accesses InGpioOrTimer GpioIrq.set_up
unfolding GpioIrq.set_up Gpio.config_dir Gpio.write Gpio.config_irq Gpio.config_debounce Timer.init
gpio_set_up-Accesses = ground arith

blink-Accesses : (budget : ℕ) → Accesses InGpioOrTimer (GpioIrq.blink budget)
unfolding GpioIrq.blink Gpio.set Gpio.clear Gpio.clear_irq
blink-Accesses budget = (
  inl (omega arith),
  omega arith,
  then_part InGpioOrTimer (GpioIrq.firmware_delay budget 1000) _ (delay-Accesses budget 1000)
      (inl (omega arith), omega arith, (inl (omega arith), omega arith, tt)),
)

answer-Accesses : (budget : ℕ) → Accesses InGpioOrTimer (GpioIrq.answer_button budget)
unfolding GpioIrq.answer_button
answer-Accesses budget = (inl (omega arith), λ v u. by_flag (bit_and v GpioIrq.button_mask == 0))
  where
    by_flag : (b : Bool) → Accesses InGpioOrTimer (if b then ret tt else GpioIrq.blink budget)
    by_flag true = tt
    by_flag false = blink-Accesses budget

rounds-Accesses :
    (budget n pattern : ℕ)
    → IsU32 pattern
    → Accesses InGpioOrTimer (GpioIrq.rounds budget n pattern)
unfolding GpioIrq.rounds GpioIrq.round Gpio.write
rounds-Accesses budget zero pattern fits = tt
rounds-Accesses budget (suc n) pattern fits =
    let next : IsU32 (GpioIrq.next_pattern pattern) = ground arith in
    reassociate InGpioOrTimer (GpioIrq.answer_button budget) _ (GpioIrq.rounds budget n) (
      then_part InGpioOrTimer (GpioIrq.answer_button budget) _ (answer-Accesses budget) (
        inl (omega arith),
        fits,
        reassociate InGpioOrTimer (GpioIrq.firmware_delay budget 5000) _ (GpioIrq.rounds budget n) (
            then_part InGpioOrTimer (GpioIrq.firmware_delay budget 5000) _
              (delay-Accesses budget 5000)
              (rounds-Accesses budget n (GpioIrq.next_pattern pattern) next)),
      ))

pub gpio_demo-Accesses : (budget n : ℕ) → Accesses InGpioOrTimer (GpioIrq.main budget n)
unfolding GpioIrq.main
gpio_demo-Accesses budget n =
    then_part InGpioOrTimer GpioIrq.set_up _ gpio_set_up-Accesses
      (rounds-Accesses budget n 1 (omega arith))
