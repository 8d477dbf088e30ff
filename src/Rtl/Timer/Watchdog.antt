-- ===== src/Rtl/Timer/Watchdog.antt =====
-- The watchdog of qar-core/rtl/timer.v and `qar_timer_kick_wdt` of devkit/hal/timer.h.
use qar_mvp.Prelude.{
  ℕ, ◌+◌, ◌-◌, ◌/◌, ◌%◌, ◌^◌, ◌<◌, ◌≡◌, refl, ap, ◌∙◌, Bool, true, false, not, ◌&&◌, ◌||◌, ◌==◌,
  if◌then◌else◌, leb, bit_or, bit_at, bit_at-bit_or, bit_at-bit_and, bit_at-le_one, complement32,
  u32, Option, none, some, List, [], ◌∷◌, length, arith, Bool-cases, ◌⊎◌, inl, inr,
}
use qar_mvp.Mmio.{Bus, exec}
use qar_mvp.Hal.Timer as Driver
use qar_mvp.Rtl.Timer.{
  Timer, has_bit, Port, p_wdt_ctrl, port_of, bus_write, bus_read, count_wdt, tick, written, clock,
}
use qar_mvp.Rtl.Timer.Ticks.{Ticks, tick-Keeps}

-- The write of `qar_timer_kick_wdt`.
abbrev pub kick : Port × ℕ
kick = (p_wdt_ctrl, 3)

-- A bus on which each access takes one clock.
abbrev pub timer_bus : Bus Timer
timer_bus = record {
  get = λ a s. (bus_read (port_of (a / 4 % 64)) s, clock none s);
  put = λ a v s. clock (some (port_of (a / 4 % 64), v)) s;
}

kick_wdt-exec :
    (s : Timer)
    → exec timer_bus (Driver.kick_wdt Driver.timer0_base) s ≡ some (tt, clock (some kick) s)
unfolding Driver.kick_wdt
kick_wdt-exec s = refl

-- A clock with a kick, or without.
abbrev pub input : Bool → Option (Port × ℕ)
input kicked = if kicked then some kick else none

-- The watchdog is enabled and counts, and every clock is a tick.
pub record Guards (s : Timer) : Type 0 where
  pub enabled : has_bit s.ctrl 0 ≡ true
  pub unscaled : s.prescale ≡ 0
  pub armed : s.wdt_enable ≡ true

-- What a write that may kick leaves of the registers that the watchdog goes by.
record Inert (s t : Timer) : Type 0 where
  ctrl : t.ctrl ≡ s.ctrl
  prescale : t.prescale ≡ s.prescale
  wdt_enable : t.wdt_enable ≡ true

written-Inert :
    (kicked : Bool) (s : Timer) → s.wdt_enable ≡ true → Inert s (written (input kicked) s)
unfolding bus_write
written-Inert true s armed = record {
  ctrl = rw armed refl;
  prescale = rw armed refl;
  wdt_enable = refl;
}
written-Inert false s armed = record { ctrl = refl; prescale = refl; wdt_enable = armed }

-- What a tick assigns to an enabled watchdog that has not run out.
record Counts (s t u : Timer) : Type 0 where
  ctrl : u.ctrl ≡ t.ctrl
  prescale : u.prescale ≡ t.prescale
  wdt_enable : u.wdt_enable ≡ t.wdt_enable
  wdt_counter : u.wdt_counter ≡ s.wdt_counter - 1
  expired : bit_at u.status 2 ≡ (if s.wdt_counter == 1 then 1 else bit_at t.status 2)

count_wdt-Counts :
    (s t : Timer) → s.wdt_enable ≡ true → 0 < s.wdt_counter → Counts s t (count_wdt s t)
count_wdt-Counts s t armed left =
    let running : (s.wdt_counter == 0) ≡ false = ground arith in
    let test : (s.wdt_enable && not (s.wdt_counter == 0)) ≡ true = rw (armed, running) refl in
    rw test (record {
      ctrl = refl;
      prescale = refl;
      wdt_enable = refl;
      wdt_counter = refl;
      expired = by_test (s.wdt_counter == 1);
    })
  where
    by_test :
        (b : Bool)
        → bit_at (if b then bit_or t.status 4 else t.status) 2
          ≡ (if b then 1 else bit_at t.status 2)
    by_test true = bit_at-bit_or t.status 4 2 ∙ omega (arith, bit_at-le_one t.status 2)
    by_test false = refl

-- One clock of the watchdog, with a kick or without.
clock-Counts :
    (kicked : Bool) (s : Timer)
    → Guards s
    → 0 < s.wdt_counter
    → Guards (clock (input kicked) s)
      × ((clock (input kicked) s).wdt_counter ≡ s.wdt_counter - 1)
      × (bit_at (clock (input kicked) s).status 2
          ≡ (if s.wdt_counter == 1 then 1 else bit_at (written (input kicked) s).status 2))
unfolding clock
clock-Counts kicked s g left =
    let t = written (input kicked) s in
    let same = written-Inert kicked s g.armed in
    let due : leb s.prescale s.prescale_cnt ≡ true = ground (arith, g.unscaled) in
    let k = tick-Keeps s t (record { enabled = g.enabled; due = due }) in
    let c =
      count_wdt-Counts s (record t { prescale_cnt = 0; counter = u32 (s.counter + 1) }) g.armed
        left in
    (
      record {
        enabled = ap (λ v. has_bit v 0) (k.ctrl ∙ c.ctrl ∙ same.ctrl) ∙ g.enabled;
        unscaled = k.prescale ∙ c.prescale ∙ same.prescale ∙ g.unscaled;
        armed = k.wdt_enable ∙ c.wdt_enable ∙ same.wdt_enable;
      },
      k.wdt_counter ∙ c.wdt_counter,
      k.expired ∙ c.expired,
    )

-- Some clocks, with kicks in some of them.
abbrev pub clocks : List Bool → Timer → Timer
clocks [] s = s
clocks (kicked ∷ rest) s = clocks rest (clock (input kicked) s)

-- On an enabled timer with prescaler 0 and an enabled watchdog that has not run out: whenever it is
-- kicked, the watchdog expires after as many clocks as its counter had at first, for a tick of the
-- same clock overrides the reload.
pub clocks-Expires :
    (kicks : List Bool) (s : Timer)
    → Guards s
    → 0 < s.wdt_counter
    → length kicks ≡ s.wdt_counter
    → (bit_at (clocks kicks s).status 2 ≡ 1) × ((clocks kicks s).wdt_counter ≡ 0)
clocks-Expires [] s g left long = absurd (omega arith)
clocks-Expires (kicked ∷ []) s g left long =
    let (h, counted, expired) = clock-Counts kicked s g left in
    let last : (s.wdt_counter == 1) ≡ true = ground arith in
    ((rw last at expired), omega (arith, counted))
clocks-Expires (kicked ∷ more ∷ rest) s g left long =
    let (h, counted, expired) = clock-Counts kicked s g left in
    clocks-Expires (more ∷ rest) (clock (input kicked) s) h (omega (arith, counted))
      (omega (arith, counted))

kick-Lost :
    (s : Timer)
    → Ticks s
    → s.wdt_enable ≡ true
    → 0 < s.wdt_counter
    → (clock (some kick) s).wdt_counter ≡ s.wdt_counter - 1
unfolding clock
kick-Lost s ticks armed left =
    let t = written (some kick) s in
    let u = record t { prescale_cnt = 0; counter = u32 (s.counter + 1) } in
    (tick-Keeps s t ticks).wdt_counter ∙ (count_wdt-Counts s u armed left).wdt_counter

-- A kick in a clock that is no tick of an enabled timer reloads the watchdog and clears its flag.
kick-Reloads :
    (s : Timer)
    → has_bit s.ctrl 0 ≡ true
    → leb s.prescale s.prescale_cnt ≡ false
    → ((clock (some kick) s).wdt_counter ≡ s.wdt_load)
      × ((clock (some kick) s).wdt_enable ≡ true)
      × (bit_at (clock (some kick) s).status 2 ≡ 0)
unfolding clock tick bus_write
kick-Reloads s enabled early =
    rw (enabled, early, always s.wdt_enable)
      (
        refl,
        refl,
        bit_at-bit_and s.status (complement32 (2 ^ 2)) 2 ∙ omega (arith, bit_at-le_one s.status 2),
      )
  where
    always : (b : Bool) → (((not b) && true) || true) ≡ true
    always true = refl
    always false = refl

-- On an enabled timer with an enabled watchdog that has not run out, `qar_timer_kick_wdt` either meets
-- a tick, and then the watchdog counts on as if it had not been kicked; or it does not, and then the
-- watchdog is reloaded and its flag is cleared.
pub kick_wdt-cases :
    (s : Timer)
    → has_bit s.ctrl 0 ≡ true
    → s.wdt_enable ≡ true
    → 0 < s.wdt_counter
    → (t : Timer) × (exec timer_bus (Driver.kick_wdt Driver.timer0_base) s ≡ some (tt, t))
      × (((leb s.prescale s.prescale_cnt ≡ true) × (t.wdt_counter ≡ s.wdt_counter - 1))
          ⊎ ((leb s.prescale s.prescale_cnt ≡ false)
              × (t.wdt_counter ≡ s.wdt_load)
              × (bit_at t.status 2 ≡ 0)))
kick_wdt-cases s enabled armed left = (
  clock (some kick) s,
  kick_wdt-exec s,
  elim (Bool-cases (leb s.prescale s.prescale_cnt)) [
    | inl due ↦ inl (due, kick-Lost s (record { enabled = enabled; due = due }) armed left)
    | inr early ↦
        let (loaded, on, cleared) = kick-Reloads s enabled early in inr (early, loaded, cleared)
  ],
)
