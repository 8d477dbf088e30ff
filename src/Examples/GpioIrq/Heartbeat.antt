-- ===== src/Examples/GpioIrq/Heartbeat.antt =====
-- The heartbeat of devkit/examples/c/gpio_irq_demo.c walks over the eight pins.
use qar_mvp.Prelude.{
  ℕ, zero, suc, ◌+◌, ◌%◌, ◌^◌, ◌<◌, ◌≡◌, refl, ap, ◌∙◌, Bool, true, false, some, bit_and, ◌==◌,
  if◌then◌else◌, arith,
}
use qar_mvp.Mmio.{ret, Bus, exec, exec->>=}
use qar_mvp.Hal.Gpio
use qar_mvp.Examples.GpioIrq.{
  gpio_base, firmware_delay, button_mask, blink, answer_button, next_pattern, round, rounds,
}
use qar_mvp.Examples.GpioIrq.Delay.{Clock, delay-Ends}

next_pattern_pow : (r : ℕ) → r < 8 → next_pattern (2 ^ r) ≡ 2 ^ ((r + 1) % 8)
next_pattern_pow zero h = refl
next_pattern_pow (suc zero) h = refl
next_pattern_pow (suc (suc zero)) h = refl
next_pattern_pow (suc (suc (suc zero))) h = refl
next_pattern_pow (suc (suc (suc (suc zero)))) h = refl
next_pattern_pow (suc (suc (suc (suc (suc zero))))) h = refl
next_pattern_pow (suc (suc (suc (suc (suc (suc zero)))))) h = refl
next_pattern_pow (suc (suc (suc (suc (suc (suc (suc zero))))))) h = refl
next_pattern_pow (suc (suc (suc (suc (suc (suc (suc (suc k)))))))) h = absurd (omega arith)

module _ {S : Type 0} (bus : Bus S) (gap : ℕ) (clock : Clock bus gap) where
  open clock use {running, get_running, put_running}

  blink-Ends :
      (budget : ℕ) (s : S)
      → running s
      → 5000 + gap < 2 ^ 32
      → 5000 < budget
      → (t : S) × (exec bus (blink budget) s ≡ some (tt, t)) × running t
  unfolding blink
  blink-Ends budget s on fits enough =
      let (t, runs, still) =
        delay-Ends bus gap clock budget 1000 (bus.put (Gpio.reg gpio_base Gpio.Reg.out_set) 0x1 s)
          (put_running _ 0x1 s (omega arith) on) (omega arith) (omega arith) in
      (
        bus.put (Gpio.reg gpio_base Gpio.Reg.irq_status) button_mask
            (bus.put (Gpio.reg gpio_base Gpio.Reg.out_clr) 0x1 t),
        exec->>= bus (firmware_delay budget 1000) _ _ runs,
        put_running _ _ _ (omega arith) (put_running _ _ _ (omega arith) still),
      )

  answer_button-Ends :
      (budget : ℕ) (s : S)
      → running s
      → 5000 + gap < 2 ^ 32
      → 5000 < budget
      → (t : S) × (exec bus (answer_button budget) s ≡ some (tt, t)) × running t
  unfolding answer_button
  answer_button-Ends budget s on fits enough =
      by_flag (bit_and (bus.get (Gpio.reg gpio_base Gpio.Reg.irq_status) s).0 button_mask == 0)
        (bus.get (Gpio.reg gpio_base Gpio.Reg.irq_status) s).1 (get_running _ s on)
    where
      by_flag :
          (b : Bool) (u : S)
          → running u
          → (t : S) × (exec bus (if b then ret tt else blink budget) u ≡ some (tt, t)) × running t
      by_flag true u up = (u, refl, up)
      by_flag false u up = blink-Ends budget u up fits enough

  -- From `s` to `t` in one round with a pattern: the button is answered, the pattern is put on the
  -- pins, and the time of a heartbeat goes by.
  pub record Beat (budget pattern : ℕ) (s t : S) : Type 0 where
    pub answered : S
    pub answers : exec bus (answer_button budget) s ≡ some (tt, answered)
    pub waits :
        exec bus
          (firmware_delay budget 5000)
          (bus.put (Gpio.reg gpio_base Gpio.Reg.out) pattern answered)
        ≡ some (tt, t)

  round-Beat :
      (budget pattern : ℕ) (s : S)
      → running s
      → 5000 + gap < 2 ^ 32
      → 5000 < budget
      → (t : S) × (exec bus (round budget pattern) s ≡ some (next_pattern pattern, t))
        × running t
        × Beat budget pattern s t
  unfolding round Gpio.write
  round-Beat budget pattern s on fits enough =
      let (u, answers, up) = answer_button-Ends budget s on fits enough in
      let (t, waits, still) =
        delay-Ends bus gap clock budget 5000 (bus.put (Gpio.reg gpio_base Gpio.Reg.out) pattern u)
          (put_running _ pattern u (omega arith) up) fits enough in
      (
        t,
        exec->>= bus (answer_button budget) _ s answers
            ∙ exec->>= bus (firmware_delay budget 5000) _ _ waits,
        still,
        record { answered = u; answers = answers; waits = waits },
      )

  -- `n` rounds from round `k` on, with the pins taken in turn.
  abbrev pub Beats : ℕ → ℕ → ℕ → S → S → Type 0
  Beats budget zero k s t = s ≡ t
  Beats budget (suc n) k s t = (u : S) × Beat budget (2 ^ (k % 8)) s u × Beats budget n (k + 1) u t

  -- On a clock that runs, with a gap below 2 ^ 32 - 5000, and with a budget of more than 5000 polls: whatever the
  -- button does, `n` rounds from the pattern of a pin on end; each answers the button, puts the pattern
  -- of one pin on the pins and waits, and the pins are taken in turn, the first after the eighth.
  pub rounds-Beats :
      (budget n k : ℕ) (s : S)
      → running s
      → 5000 + gap < 2 ^ 32
      → 5000 < budget
      → (t : S) × (exec bus (rounds budget n (2 ^ (k % 8))) s ≡ some (2 ^ ((k + n) % 8), t))
        × Beats budget n k s t
  unfolding rounds
  rounds-Beats budget zero k s on fits enough =
      (s, ap (λ (e : ℕ). some (2 ^ (e % 8), s)) (omega arith), refl)
  rounds-Beats budget (suc n) k s on fits enough =
      let (u, runs, up, beat) = round-Beat budget (2 ^ (k % 8)) s on fits enough in
      let (t, more, beats) = rounds-Beats budget n (k + 1) u up fits enough in
      let next : next_pattern (2 ^ (k % 8)) ≡ 2 ^ ((k + 1) % 8) =
        next_pattern_pow (k % 8) (omega arith) ∙ ap (λ (e : ℕ). 2 ^ e) (omega arith) in
      (
        t,
        exec->>= bus (round budget (2 ^ (k % 8))) (rounds budget n) s runs
            ∙ ap (λ p. exec bus (rounds budget n p) u) next
            ∙ more
            ∙ ap (λ (e : ℕ). some (2 ^ (e % 8), t)) (omega arith),
        (u, beat, beats),
      )
