-- ===== src/Rtl/Timer/Pwm.antt =====
-- `qar_timer_config_pwm` of devkit/hal/timer.h on qar-core/rtl/timer.v.
use qar_mvp.Prelude.{
  ℕ, ◌^◌, ◌<◌, ◌≡◌, refl, ap, ◌∙◌, true, ◌==◌, if◌then◌else◌, Option, some, arith, Bool-cases, inl,
  inr, min,
}
use qar_mvp.Mmio.{exec}
use qar_mvp.Hal.Timer as Driver
use qar_mvp.Rtl.Timer.{
  Timer, has_bit, Port, p_pwm0_period, p_pwm0_duty, p_pwm1_period, p_pwm1_duty, bus_write, next_pwm,
  written, clock,
}
use qar_mvp.Rtl.Timer.Watchdog.{timer_bus}
use qar_mvp.Rtl.Timer.Channel.{period_of, duty_of, count_of, tick-Advances}
use qar_mvp.Rtl.Timer.Phase.{
  Drives, unscaled-Ticks, next_pwm-below, passed, highs, passed-Drives, highs-period,
}

-- A write of `qar_timer_config_pwm` in a clock, and the registers that a channel goes by.
record Wrote (channel period duty : ℕ) (s t : Timer) : Type 0 where
  ctrl : t.ctrl ≡ s.ctrl
  prescale : t.prescale ≡ s.prescale
  has_period : period_of channel t ≡ period
  has_duty : duty_of channel t ≡ duty

clock-Wrote :
    (channel period duty : ℕ) (write : Option (Port × ℕ)) (s : Timer)
    → has_bit s.ctrl 0 ≡ true
    → s.prescale ≡ 0
    → Wrote channel period duty s (written write s)
    → Wrote channel period duty s (clock write s)
      × (count_of channel (clock write s) ≡ next_pwm (period_of channel s) (count_of channel s))
unfolding clock
clock-Wrote channel period duty write s enabled unscaled w =
    let a = tick-Advances channel s (written write s) (unscaled-Ticks s enabled unscaled) in
    (
      record {
        ctrl = a.ctrl ∙ w.ctrl;
        prescale = a.prescale ∙ w.prescale;
        has_period = a.period ∙ w.has_period;
        has_duty = a.duty ∙ w.has_duty;
      },
      a.count,
    )

-- The two writes of `qar_timer_config_pwm`, in a clock each.
abbrev write_period : ℕ → ℕ → Option (Port × ℕ)
write_period channel period = some (if channel == 0 then p_pwm0_period else p_pwm1_period, period)

abbrev write_duty : ℕ → ℕ → Option (Port × ℕ)
write_duty channel duty = some (if channel == 0 then p_pwm0_duty else p_pwm1_duty, duty)

config_pwm-exec :
    (channel period duty : ℕ) (s : Timer)
    → exec timer_bus (Driver.config_pwm Driver.timer0_base channel period duty) s
      ≡ some (tt, clock (write_duty channel duty) (clock (write_period channel period) s))
unfolding Driver.config_pwm
config_pwm-exec channel period duty s = elim (Bool-cases (channel == 0)) [
  | inl first ↦ rw (first, exec) refl
  | inr second ↦ rw (second, exec) refl
]

write_period-Wrote :
    (channel period : ℕ) (s : Timer)
    → Wrote channel period (duty_of channel s) s (written (write_period channel period) s)
unfolding bus_write
write_period-Wrote channel period s = elim (Bool-cases (channel == 0)) [
  | inl first ↦ record {
    ctrl = rw first refl;
    prescale = rw first refl;
    has_period = rw first refl;
    has_duty = rw first refl;
  }
  | inr second ↦ record {
    ctrl = rw second refl;
    prescale = rw second refl;
    has_period = rw second refl;
    has_duty = rw second refl;
  }
]

write_duty-Wrote :
    (channel duty : ℕ) (s : Timer)
    → Wrote channel (period_of channel s) duty s (written (write_duty channel duty) s)
unfolding bus_write
write_duty-Wrote channel duty s = elim (Bool-cases (channel == 0)) [
  | inl first ↦ record {
    ctrl = rw first refl;
    prescale = rw first refl;
    has_period = rw first refl;
    has_duty = rw first refl;
  }
  | inr second ↦ record {
    ctrl = rw second refl;
    prescale = rw second refl;
    has_period = rw second refl;
    has_duty = rw second refl;
  }
]

config_pwm-Drives :
    (channel period duty : ℕ) (s : Timer)
    → has_bit s.ctrl 0 ≡ true
    → s.prescale ≡ 0
    → 0 < period
    → Drives channel period duty
        (clock (write_duty channel duty) (clock (write_period channel period) s))
config_pwm-Drives channel period duty s enabled unscaled some_period =
    let t = clock (write_period channel period) s in
    let (a, x) =
      clock-Wrote channel period (duty_of channel s) (write_period channel period) s enabled
        unscaled (write_period-Wrote channel period s) in
    let on : has_bit t.ctrl 0 ≡ true = ap (λ v. has_bit v 0) a.ctrl ∙ enabled in
    let still = a.prescale ∙ unscaled in
    let (b, counted) =
      clock-Wrote channel (period_of channel t) duty (write_duty channel duty) t on still
        (write_duty-Wrote channel duty t) in
    record {
      enabled = ap (λ v. has_bit v 0) b.ctrl ∙ on;
      unscaled = b.prescale ∙ still;
      has_period = b.has_period ∙ a.has_period;
      has_duty = b.has_duty;
      below = omega (
        arith,
        rw a.has_period at counted,
        next_pwm-below period (count_of channel t) some_period,
      );
    }

-- On an enabled timer with prescaler 0, and for a 32-bit period that is not 0: `qar_timer_config_pwm`
-- ends from every state, and from then on, of any `period` clocks one after the other, the channel's
-- output is assigned high in as many as the duty says, or in all of them when the duty is larger.
pub config_pwm-highs :
    (channel period duty skip : ℕ) (s : Timer)
    → has_bit s.ctrl 0 ≡ true
    → s.prescale ≡ 0
    → 0 < period
    → period < 2 ^ 32
    → (t : Timer) × (exec timer_bus (Driver.config_pwm Driver.timer0_base channel period duty) s
        ≡ some (tt, t))
      × (highs channel period (passed skip t) ≡ min period duty)
config_pwm-highs channel period duty skip s enabled unscaled some_period small =
    let t = clock (write_duty channel duty) (clock (write_period channel period) s) in
    let d = config_pwm-Drives channel period duty s enabled unscaled some_period in
    (
      t,
      config_pwm-exec channel period duty s,
      highs-period channel period duty some_period small (passed skip t)
          (passed-Drives channel period duty some_period small skip t d),
    )
