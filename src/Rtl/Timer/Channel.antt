-- ===== src/Rtl/Timer/Channel.antt =====
-- The PWM channels of qar-core/rtl/timer.v in a tick.
use qar_mvp.Prelude.{
  ℕ, ◌+◌, ◌≡◌, refl, ◌∙◌, Bool, not, ◌&&◌, ◌==◌, if◌then◌else◌, u32, Bool-cases, inl, inr,
}
use qar_mvp.Rtl.Timer.{Timer, count_wdt, compare0, compare1, next_pwm, pwm_level, tick}
use qar_mvp.Rtl.Timer.Ticks.{Ticks}

-- What neither the watchdog nor the compare units change.
pub record Same (t u : Timer) : Type 0 where
  pub ctrl : u.ctrl ≡ t.ctrl
  pub prescale : u.prescale ≡ t.prescale
  pub pwm0_period : u.pwm0_period ≡ t.pwm0_period
  pub pwm0_duty : u.pwm0_duty ≡ t.pwm0_duty
  pub pwm1_period : u.pwm1_period ≡ t.pwm1_period
  pub pwm1_duty : u.pwm1_duty ≡ t.pwm1_duty

Same-refl : (t : Timer) → Same t t
Same-refl t = record {
  ctrl = refl;
  prescale = refl;
  pwm0_period = refl;
  pwm0_duty = refl;
  pwm1_period = refl;
  pwm1_duty = refl;
}

Same-trans : (t u v : Timer) → Same t u → Same u v → Same t v
Same-trans t u v h k = record {
  ctrl = k.ctrl ∙ h.ctrl;
  prescale = k.prescale ∙ h.prescale;
  pwm0_period = k.pwm0_period ∙ h.pwm0_period;
  pwm0_duty = k.pwm0_duty ∙ h.pwm0_duty;
  pwm1_period = k.pwm1_period ∙ h.pwm1_period;
  pwm1_duty = k.pwm1_duty ∙ h.pwm1_duty;
}

count_wdt-Same : (s t : Timer) → Same t (count_wdt s t)
count_wdt-Same s t = elim (Bool-cases (s.wdt_enable && not (s.wdt_counter == 0))) [
  | inl armed ↦ rw armed (record {
    ctrl = refl;
    prescale = refl;
    pwm0_period = refl;
    pwm0_duty = refl;
    pwm1_period = refl;
    pwm1_duty = refl;
  })
  | inr off ↦ rw off (Same-refl t)
]

compare0-Same : (s t : Timer) → Same t (compare0 s t)
compare0-Same s t = elim (Bool-cases (not (s.cmp0 == 0) && (s.counter == s.cmp0))) [
  | inl hit ↦ rw hit (record {
    ctrl = refl;
    prescale = refl;
    pwm0_period = refl;
    pwm0_duty = refl;
    pwm1_period = refl;
    pwm1_duty = refl;
  })
  | inr miss ↦ rw miss (Same-refl t)
]

compare1-Same : (s t : Timer) → Same t (compare1 s t)
compare1-Same s t = elim (Bool-cases (not (s.cmp1 == 0) && (s.counter == s.cmp1))) [
  | inl hit ↦ rw hit (record {
    ctrl = refl;
    prescale = refl;
    pwm0_period = refl;
    pwm0_duty = refl;
    pwm1_period = refl;
    pwm1_duty = refl;
  })
  | inr miss ↦ rw miss (Same-refl t)
]

-- A channel by its number, as `qar_timer_config_pwm` takes it: 0, or any other for the second.
abbrev pub period_of : ℕ → Timer → ℕ
period_of channel s = if channel == 0 then s.pwm0_period else s.pwm1_period

abbrev pub duty_of : ℕ → Timer → ℕ
duty_of channel s = if channel == 0 then s.pwm0_duty else s.pwm1_duty

abbrev pub count_of : ℕ → Timer → ℕ
count_of channel s = if channel == 0 then s.pwm0_counter else s.pwm1_counter

abbrev pub out_of : ℕ → Timer → Bool
out_of channel s = if channel == 0 then s.pwm0_out else s.pwm1_out

-- What a tick on top of the writes `t` assigns to a channel.
pub record Advances (channel : ℕ) (s t u : Timer) : Type 0 where
  pub ctrl : u.ctrl ≡ t.ctrl
  pub prescale : u.prescale ≡ t.prescale
  pub period : period_of channel u ≡ period_of channel t
  pub duty : duty_of channel u ≡ duty_of channel t
  pub count : count_of channel u ≡ next_pwm (period_of channel s) (count_of channel s)
  pub out :
      out_of channel u ≡ pwm_level (period_of channel s) (duty_of channel s) (count_of channel s)

pub tick-Advances : (channel : ℕ) (s t : Timer) → Ticks s → Advances channel s t (tick s t)
unfolding tick
tick-Advances channel s t h =
    let a = record t { prescale_cnt = 0; counter = u32 (s.counter + 1) } in
    let b = count_wdt s a in
    let c = compare0 s b in
    let k =
      Same-trans a b (compare1 s c) (count_wdt-Same s a)
        (Same-trans b c (compare1 s c) (compare0-Same s b) (compare1-Same s c)) in
    elim (Bool-cases (channel == 0)) [
      | inl first ↦
          rw (h.enabled, h.due)
            (record {
              ctrl = k.ctrl;
              prescale = k.prescale;
              period = rw first k.pwm0_period;
              duty = rw first k.pwm0_duty;
              count = rw first refl;
              out = rw first refl;
            })
      | inr second ↦
          rw (h.enabled, h.due)
            (record {
              ctrl = k.ctrl;
              prescale = k.prescale;
              period = rw second k.pwm1_period;
              duty = rw second k.pwm1_duty;
              count = rw second refl;
              out = rw second refl;
            })
    ]
