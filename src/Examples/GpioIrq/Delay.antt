-- ===== src/Examples/GpioIrq/Delay.antt =====
-- The busy-wait of devkit/examples/c/gpio_irq_demo.c waits as long as it is told, also when the
-- counter wraps round.
use qar_mvp.Prelude.{
  ℕ, zero, suc, ◌+◌, ◌-◌, ◌*◌, ◌%◌, ◌^◌, ◌≤◌, ◌<◌, ◌≡◌, refl, ap, ◌∙◌, not, some, ltb, Bool-cases,
  inl, inr, arith,
}
use qar_mvp.Mmio.{Io, ret, Bus, exec, exec->>=, poll_until, ◌>>=◌}
use qar_mvp.Examples.GpioIrq.{counter, elapsed, firmware_delay}

-- The addresses of the pins.
abbrev pub IsGpio : ℕ → Type 0
IsGpio a = (0x40000000 ≤ a) × (a < 0x40000100)

-- A counter of 32 bits that, while it runs, is only moved by time: a read takes time, but no more than
-- `gap` ticks, and neither a read nor a write to the pins stops it.
pub record Clock {S : Type 0} (bus : Bus S) (gap : ℕ) : Type 1 where
  pub running : S → Type 0
  pub time : S → ℕ
  pub shows : (s : S) → running s → (bus.get counter s).0 ≡ time s % 2 ^ 32
  pub later : (s : S) → running s → time s < time (bus.get counter s).1
  pub soon : (s : S) → running s → time (bus.get counter s).1 ≤ time s + gap
  pub get_running : (a : ℕ) (s : S) → running s → running (bus.get a s).1
  pub put_running : (a v : ℕ) (s : S) → IsGpio a → running s → running (bus.put a v s)

module _ {S : Type 0} (bus : Bus S) (gap : ℕ) (clock : Clock bus gap) where
  open clock use {running, time, shows, later, soon, get_running}

  -- The driver ends in a state whose time lies between the two, and the counter still runs.
  abbrev pub EndsWithin : {A : Type 0} → Io A → ℕ → ℕ → S → Type 0
  EndsWithin {A} m lo hi s =
      (x : A) × (t : S) × (exec bus m s ≡ some (x, t)) × (lo < time t) × (time t ≤ hi) × running t

  -- The difference on `uint32_t` is the time that has passed.
  elapsed_lem :
      (start ticks now : ℕ)
      → start ≤ now
      → now < start + 2 ^ 32
      → elapsed (start % 2 ^ 32) ticks (now % 2 ^ 32) ≡ not (ltb (now - start) ticks)
  elapsed_lem start ticks now early late = ap (λ (x : ℕ). not (ltb x ticks)) (omega arith)

  poll-EndsWithin :
      (budget start ticks : ℕ) (s : S)
      → running s
      → ticks + gap < 2 ^ 32
      → start ≤ time s
      → time s ≤ start + ticks + gap
      → 0 < budget
      → start + ticks < time s + budget
      → EndsWithin
          (poll_until (elapsed (start % 2 ^ 32) ticks) budget counter)
          (start + ticks)
          (start + ticks + 2 * gap)
          s
  unfolding poll_until
  poll-EndsWithin zero start ticks s on fits early late some_left enough = absurd (omega arith)
  poll-EndsWithin (suc budget) start ticks s on fits early late some_left enough =
      let t = (bus.get counter s).1 in
      let test : elapsed (start % 2 ^ 32) ticks (bus.get counter s).0
          ≡ not (ltb (time s - start) ticks) =
        ap (elapsed (start % 2 ^ 32) ticks) (shows s on)
        ∙ elapsed_lem start ticks (time s) early (omega arith) in
      elim (Bool-cases (ltb (time s - start) ticks)) [
        | inr up ↦
            let over : start + ticks ≤ time s = ground arith in
            (
              0,
              t,
              rw (test, up, exec) refl,
              omega (arith, later s on),
              omega (arith, soon s on),
              get_running counter s on,
            )
        | inl down ↦
            let before : time s < start + ticks = ground arith in
            let (n, u, runs, lo, hi, still) =
              poll-EndsWithin budget start ticks t (get_running counter s on) fits
                (omega (arith, later s on)) (omega (arith, soon s on)) (omega arith)
                (omega (arith, later s on)) in
            (
              n + 1,
              u,
              rw (test, down, exec)
                  (exec->>= bus (poll_until (elapsed (start % 2 ^ 32) ticks) budget counter)
                    (λ k. ret (k + 1)) t runs),
              lo,
              hi,
              still,
            )
      ]

  -- On such a clock that runs, for ticks that with the gap stay below 2 ^ 32, and with a budget of more
  -- polls than ticks: whatever the counter shows at first, and also when it wraps round on the way, the
  -- busy-wait ends, after more than the ticks, and not later than two gaps more, and the clock runs on.
  pub firmware_delay-EndsWithin :
      (budget ticks : ℕ) (s : S)
      → running s
      → ticks + gap < 2 ^ 32
      → ticks < budget
      → EndsWithin (firmware_delay budget ticks) (time s + ticks) (time s + ticks + 2 * gap) s
  unfolding firmware_delay
  firmware_delay-EndsWithin budget ticks s on fits enough =
      let t = (bus.get counter s).1 in
      let (n, u, runs, lo, hi, still) =
        poll-EndsWithin budget (time s) ticks t (get_running counter s on) fits
          (omega (arith, later s on)) (omega (arith, soon s on)) (omega arith)
          (omega (arith, later s on)) in
      (
        tt,
        u,
        ap (λ v. exec bus (poll_until (elapsed v ticks) budget counter >>= λ k. ret (tt {0})) t)
              (shows s on)
            ∙ exec->>= bus (poll_until (elapsed (time s % 2 ^ 32) ticks) budget counter)
                (λ k. ret tt) t runs,
        lo,
        hi,
        still,
      )

  -- The busy-wait is over at some time.
  pub delay-Ends :
      (budget ticks : ℕ) (s : S)
      → running s
      → ticks + gap < 2 ^ 32
      → ticks < budget
      → (t : S) × (exec bus (firmware_delay budget ticks) s ≡ some (tt, t)) × running t
  delay-Ends budget ticks s on fits enough =
      let (x, t, runs, lo, hi, still) = firmware_delay-EndsWithin budget ticks s on fits enough in
      (t, runs, still)
