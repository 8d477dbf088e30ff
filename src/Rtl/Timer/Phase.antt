-- ===== src/Rtl/Timer/Phase.antt =====
-- The output of a PWM channel of qar-core/rtl/timer.v over a period.
use qar_mvp.Prelude.{
  ℕ, zero, suc, ◌+◌, ◌-◌, ◌^◌, ◌<◌, ◌≤◌, ◌≡◌, sym, ap, ◌∙◌, Bool, true, ltb, none, arith, min,
}
use qar_mvp.Rtl.Timer.{Timer, has_bit, next_pwm, pwm_level, clock, bit}
use qar_mvp.Rtl.Timer.Ticks.{Ticks}
use qar_mvp.Rtl.Timer.Channel.{period_of, duty_of, count_of, out_of, tick-Advances}

-- The channel runs, with a period and a duty, on a timer of which every clock is a tick.
pub record Drives (channel period duty : ℕ) (s : Timer) : Type 0 where
  pub enabled : has_bit s.ctrl 0 ≡ true
  pub unscaled : s.prescale ≡ 0
  pub has_period : period_of channel s ≡ period
  pub has_duty : duty_of channel s ≡ duty
  pub below : count_of channel s < period

pub unscaled-Ticks : (s : Timer) → has_bit s.ctrl 0 ≡ true → s.prescale ≡ 0 → Ticks s
unscaled-Ticks s enabled unscaled = record { enabled = enabled; due = ground (arith, unscaled) }

pub next_pwm-below : (period count : ℕ) → 0 < period → next_pwm period count < period
next_pwm-below period count some_period = ground arith

-- The next count, for a count below the period.
next_pwm-cases :
    (period count : ℕ)
    → count < period
    → period < 2 ^ 32
    → (count + 1 < period → next_pwm period count ≡ count + 1)
      × (count + 1 ≡ period → next_pwm period count ≡ 0)
next_pwm-cases period count below small = (λ h. ground arith, λ h. ground arith)

pwm_level_lem :
    (period duty count : ℕ) → count < period → pwm_level period duty count ≡ ltb count duty
pwm_level_lem period duty count below = ground arith

-- One more clock of a count that goes up, measured by the duty.
level_step :
    (duty count : ℕ) {level : Bool}
    → level ≡ ltb count duty
    → bit level + min count duty ≡ min (count + 1) duty
level_step duty count e = rw e (ground arith)

-- Clocks without a write.
abbrev pub passed : ℕ → Timer → Timer
passed zero s = s
passed (suc n) s = passed n (clock none s)

-- In how many of the next clocks the output is assigned high.
abbrev pub highs : ℕ → ℕ → Timer → ℕ
highs channel zero s = 0
highs channel (suc n) s = bit (out_of channel (clock none s)) + highs channel n (clock none s)

module _ (channel period duty : ℕ) (some_period : 0 < period) (small : period < 2 ^ 32) where
  clock-Drives :
      (s : Timer)
      → Drives channel period duty s
      → Drives channel period duty (clock none s)
        × (count_of channel (clock none s) ≡ next_pwm period (count_of channel s))
        × (out_of channel (clock none s) ≡ ltb (count_of channel s) duty)
  unfolding clock
  clock-Drives s d =
      let a = tick-Advances channel s s (unscaled-Ticks s d.enabled d.unscaled) in
      let counted = rw d.has_period at a.count in
      (
        record {
          enabled = ap (λ v. has_bit v 0) a.ctrl ∙ d.enabled;
          unscaled = a.prescale ∙ d.unscaled;
          has_period = a.period ∙ d.has_period;
          has_duty = a.duty ∙ d.has_duty;
          below = omega (arith, counted, next_pwm-below period (count_of channel s) some_period);
        },
        counted,
        (rw (d.has_period, d.has_duty) at a.out)
            ∙ pwm_level_lem period duty (count_of channel s) d.below,
      )

  pub passed-Drives :
      (n : ℕ) (s : Timer) → Drives channel period duty s → Drives channel period duty (passed n s)
  passed-Drives zero s d = d
  passed-Drives (suc n) s d = passed-Drives n (clock none s) (clock-Drives s d).0

  -- Up to the end of the period.
  record Rises (n : ℕ) (s : Timer) : Type 0 where
    counted : highs channel n s + min (count_of channel s) duty ≡ min (count_of channel s + n) duty
    within :
        count_of channel s + n < period → count_of channel (passed n s) ≡ count_of channel s + n
    wraps : count_of channel s + n ≡ period → count_of channel (passed n s) ≡ 0

  highs-Rises :
      (n : ℕ) (s : Timer)
      → Drives channel period duty s
      → count_of channel s + n ≤ period
      → Rises n s
  highs-Rises zero s d fits = record {
    counted = omega arith;
    within = λ h. omega arith;
    wraps = λ h. absurd (omega (arith, d.below));
  }
  highs-Rises (suc zero) s d fits =
      let (e, counted, level) = clock-Drives s d in
      let (up, round) = next_pwm-cases period (count_of channel s) d.below small in
      record {
        counted = omega (arith, level_step duty (count_of channel s) level);
        within = λ h. counted ∙ up h;
        wraps = λ h. counted ∙ round h;
      }
  highs-Rises (suc (suc n)) s d fits =
      let (e, counted, level) = clock-Drives s d in
      let (up, round) = next_pwm-cases period (count_of channel s) d.below small in
      let next : count_of channel (clock none s) ≡ count_of channel s + 1 =
        counted ∙ up (omega arith) in
      let rest = highs-Rises (suc n) (clock none s) e (omega (arith, next)) in
      record {
        counted =
            omega (arith, level_step duty (count_of channel s) level, rw next at rest.counted);
        within = λ h. rest.within (omega (arith, next)) ∙ omega (arith, next);
        wraps = λ h. rest.wraps (omega (arith, next));
      }

  highs-add :
      (m n : ℕ) (s : Timer)
      → highs channel (m + n) s ≡ highs channel m s + highs channel n (passed m s)
  highs-add zero n s =
      let none_first : 0 + n ≡ n = omega arith in
      ap (λ k. highs channel k s) none_first ∙ omega arith
  highs-add (suc m) n s =
      let shift : suc m + n ≡ suc (m + n) = omega arith in
      ap (λ k. highs channel k s) shift ∙ omega (arith, highs-add m n (clock none s))

  pub highs-period :
      (s : Timer) → Drives channel period duty s → highs channel period s ≡ min period duty
  highs-period s d =
      let c = count_of channel s in
      let first = highs-Rises (period - c) s d (omega (arith, d.below)) in
      let restart = first.wraps (omega (arith, d.below)) in
      let second =
        highs-Rises c (passed (period - c) s) (passed-Drives (period - c) s d)
          (omega (arith, restart, d.below)) in
      let both : highs channel (period - c + c) s ≡ min period duty =
        omega
          (arith, highs-add (period - c) c s, first.counted, second.counted, restart, d.below) in
      let whole : period - c + c ≡ period = omega (arith, d.below) in
      ap (λ k. highs channel k s) (sym whole) ∙ both
