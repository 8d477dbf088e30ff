-- ===== src/Examples/TimerPwm/Laws.antt =====
-- The ramp of devkit/examples/c/timer_pwm_demo.c.
use qar_mvp.Prelude.{
  ℕ, zero, suc, ◌+◌, ◌-◌, ◌*◌, ◌^◌, ◌≤◌, ◌<◌, ◌≡◌, refl, [], ◌∷◌, ltb, u32, Bool-cases, inl, inr,
  arith,
}
use qar_mvp.Mmio.Device.{Log, Ends}
use qar_mvp.Hal.Timer
use qar_mvp.Examples.TimerPwm.{timer_base, capture_read, ramp_step, ramp}

-- The writes come in pairs, each duty below the period of 1024 and the two of a pair adding up to
-- 1023, and nothing else is written.
abbrev pub Paired : Log → Type 0
Paired [] = Unit
Paired (row ∷ []) = ⊥
Paired ((b, w) ∷ (a, v) ∷ log) =
    (a ≡ Timer.reg timer_base Timer.Reg.pwm0_duty)
    × (b ≡ Timer.reg timer_base Timer.Reg.pwm1_duty)
    × (v < 1024)
    × (v + w ≡ 1023)
    × Paired log

-- From every duty below 2048 on, and whatever the capture registers hold: with fuel for one round
-- for each 64 below 1024 and one more, the ramp ends, and on top of writes in such pairs it makes
-- writes in such pairs alone.
pub ramp-Paired :
    (fuel duty : ℕ) (log : Log)
    → duty < 2048
    → 1024 ≤ duty + 64 * fuel
    → Paired log
    → Ends Paired log (ramp (suc fuel) duty)
unfolding ramp ramp_step capture_read
ramp-Paired zero duty log small enough paired = elim (Bool-cases (ltb duty 1024)) [
  | inr over ↦ rw (over, Ends) paired
  | inl below ↦ absurd (grind arith)
]
ramp-Paired (suc fuel) duty log small enough paired = elim (Bool-cases (ltb duty 1024)) [
  | inr over ↦ rw (over, Ends) paired
  | inl below ↦
      let rest =
        ramp-Paired fuel (u32 (duty + 64))
          ((Timer.reg timer_base Timer.Reg.pwm1_duty, u32 (1023 + 2 ^ 32 - duty))
            ∷ (Timer.reg timer_base Timer.Reg.pwm0_duty, duty)
            ∷ log)
          (grind arith) (grind arith) (refl, refl, grind arith, grind arith, paired) in
      rw (below, Ends) (λ v w. rest)
]
