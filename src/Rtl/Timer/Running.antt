-- ===== src/Rtl/Timer/Running.antt =====
-- The counter of qar-core/rtl/timer.v as the clock of devkit/examples/c/gpio_irq_demo.c. The core takes
-- some clocks for each access; the rest of the hardware, with the pins, is any.
use qar_mvp.Prelude.{
  ℕ, zero, suc, ◌+◌, ◌*◌, ◌/◌, ◌%◌, ◌^◌, ◌<◌, ◌≤◌, ◌≡◌, refl, ap, ◌∙◌, Bool, true, false, not, ◌&&◌,
  ◌==◌, if◌then◌else◌, leb, u32, Option, none, some, arith, Bool-cases, inl, inr,
}
use qar_mvp.Mmio.{Io, Bus, exec}
use qar_mvp.Examples.GpioIrq.{firmware_delay}
use qar_mvp.Examples.GpioIrq.Delay.{Clock, IsGpio, firmware_delay-EndsWithin}
use qar_mvp.Rtl.Timer.{Timer, has_bit, Port, port_of, bus_read, count_wdt, clock}
use qar_mvp.Rtl.Timer.Ticks.{tick-Keeps}

-- The timer, the rest of the hardware, and the number of clocks, which no register has.
pub record System (G : Type 0) : Type 0 where
  pub timer : Timer
  pub rest : G
  pub clocks : ℕ

-- Some clocks without a write.
abbrev pub idle : {G : Type 0} → ℕ → System G → System G
idle zero s = s
idle (suc n) s = idle n (record s { timer = clock none s.timer; clocks = s.clocks + 1 })

-- `(addr & TIMER_ADDR_MASK) == TIMER0_BASE_ADDR` of qar-core/rtl/qar_core.v.
abbrev pub hits_timer : ℕ → Bool
hits_timer a = a / 256 == 0x400050

abbrev timer_port : ℕ → Port
timer_port a = port_of (a / 4 % 64)

module _ {G : Type 0} (others : Bus G) (pace : ℕ → ℕ) where
  -- The clocks of an access: the first with its write, if it is one to the timer.
  abbrev pub pass : Option (Port × ℕ) → System G → System G
  pass write s =
      idle (pace s.clocks) (record s { timer = clock write s.timer; clocks = s.clocks + 1 })

  -- `pace` says how many clocks more than one an access takes, by the time when it begins.
  abbrev pub system_bus : Bus (System G)
  system_bus = record {
    get = λ a s.
        if hits_timer a
        then (bus_read (timer_port a) s.timer, pass none s)
        else ((others.get a s.rest).0, pass none (record s { rest = (others.get a s.rest).1 }));
    put = λ a v s.
        if hits_timer a
        then pass (some (timer_port a, v)) s
        else pass none (record s { rest = others.put a v s.rest });
  }

  -- The timer is enabled with prescaler 0, and its counter shows the clocks modulo 2 ^ 32.
  pub record Runs (s : System G) : Type 0 where
    pub enabled : has_bit s.timer.ctrl 0 ≡ true
    pub unscaled : s.timer.prescale ≡ 0
    pub counts : s.timer.counter ≡ s.clocks % 2 ^ 32

  -- The watchdog leaves these registers alone.
  count_wdt-same :
      (s t : Timer)
      → ((count_wdt s t).ctrl ≡ t.ctrl)
        × ((count_wdt s t).prescale ≡ t.prescale)
        × ((count_wdt s t).counter ≡ t.counter)
  count_wdt-same s t = elim (Bool-cases (s.wdt_enable && not (s.wdt_counter == 0))) [
    | inl armed ↦ rw armed (refl, refl, refl)
    | inr off ↦ rw off (refl, refl, refl)
  ]

  clock-Runs :
      (s : System G)
      → Runs s
      → Runs (record s { timer = clock none s.timer; clocks = s.clocks + 1 })
  unfolding clock
  clock-Runs s r =
      let due : leb s.timer.prescale s.timer.prescale_cnt ≡ true = ground (arith, r.unscaled) in
      let k = tick-Keeps s.timer s.timer (record { enabled = r.enabled; due = due }) in
      let (c, p, n) =
        count_wdt-same s.timer
          (record s.timer { prescale_cnt = 0; counter = u32 (s.timer.counter + 1) }) in
      record {
        enabled = ap (λ v. has_bit v 0) (k.ctrl ∙ c) ∙ r.enabled;
        unscaled = k.prescale ∙ p ∙ r.unscaled;
        counts = k.counter ∙ n ∙ omega (arith, r.counts);
      }

  idle-Runs : (n : ℕ) (s : System G) → Runs s → Runs (idle n s) × ((idle n s).clocks ≡ s.clocks + n)
  idle-Runs zero s r = (r, omega arith)
  idle-Runs (suc n) s r =
      let (h, e) =
        idle-Runs n (record s { timer = clock none s.timer; clocks = s.clocks + 1 })
          (clock-Runs s r) in
      (h, omega (arith, e))

  pass-Runs :
      (s : System G)
      → Runs s
      → Runs (pass none s) × ((pass none s).clocks ≡ s.clocks + 1 + pace s.clocks)
  pass-Runs s r =
      idle-Runs (pace s.clocks) (record s { timer = clock none s.timer; clocks = s.clocks + 1 })
        (clock-Runs s r)

  others-Runs : (s : System G) (g : G) → Runs s → Runs (record s { rest = g })
  others-Runs s g r = record { enabled = r.enabled; unscaled = r.unscaled; counts = r.counts }

  get-Runs : (a : ℕ) (s : System G) → Runs s → Runs (system_bus.get a s).1
  get-Runs a s r = elim (Bool-cases (hits_timer a)) [
    | inl hit ↦ rw hit (pass-Runs s r).0
    | inr miss ↦
        let t = record s { rest = (others.get a s.rest).1 } in
        rw miss (pass-Runs t (others-Runs s (others.get a s.rest).1 r)).0
  ]

  put-Runs : (a v : ℕ) (s : System G) → IsGpio a → Runs s → Runs (system_bus.put a v s)
  put-Runs a v s pins r =
      let miss : hits_timer a ≡ false = ground (arith, pins) in
      rw miss
        (pass-Runs (record s { rest = others.put a v s.rest })
          (others-Runs s (others.put a v s.rest) r)).0

  -- When no access takes more than `gap` clocks, the counter is such a clock.
  pub timer_clock : (gap : ℕ) → ((n : ℕ) → pace n < gap) → Clock system_bus gap
  unfolding bus_read
  timer_clock gap paced = record {
    running = Runs;
    time = λ s. s.clocks;
    shows = λ s r. r.counts;
    later = λ s r. omega (arith, (pass-Runs s r).1);
    soon = λ s r. omega (arith, (pass-Runs s r).1, paced s.clocks);
    get_running = get-Runs;
    put_running = put-Runs;
  }

  -- A run on this hardware whose clocks at the end lie between two numbers, with the timer still
  -- running.
  pub record Lasts {A : Type 0} (io : Io A) (lo hi : ℕ) (s : System G) : Type 0 where
    pub result : A
    pub after : System G
    pub runs : exec system_bus io s ≡ some (result, after)
    pub late : lo < after.clocks
    pub soon : after.clocks ≤ hi
    pub still : Runs after

  -- On a timer that runs with prescaler 0, where no access takes more than `gap` clocks, for ticks that
  -- with the gap stay below 2 ^ 32, and with a budget of more polls than ticks: `firmware_delay` ends
  -- after more than that many clocks, and at most twice the gap later, also when the counter wraps
  -- round on the way.
  pub firmware_delay-Lasts :
      (gap budget ticks : ℕ) (s : System G)
      → ((n : ℕ) → pace n < gap)
      → Runs s
      → ticks + gap < 2 ^ 32
      → ticks < budget
      → Lasts (firmware_delay budget ticks) (s.clocks + ticks) (s.clocks + ticks + 2 * gap) s
  unfolding timer_clock
  firmware_delay-Lasts gap budget ticks s paced r fits enough =
      let (x, t, runs, lo, hi, still) =
        firmware_delay-EndsWithin system_bus gap (timer_clock gap paced) budget ticks s r fits
          enough in
      record { result = x; after = t; runs = runs; late = lo; soon = hi; still = still }
