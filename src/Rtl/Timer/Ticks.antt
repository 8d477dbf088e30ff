-- ===== src/Rtl/Timer/Ticks.antt =====
-- The ticks of qar-core/rtl/timer.v: what a tick leaves to the watchdog and to the PWM channels.
use qar_mvp.Prelude.{
  ◌+◌, ◌≡◌, refl, ◌∙◌, true, not, ◌&&◌, ◌==◌, leb, bit_at, bit_at-bit_or, u32, arith, Bool-cases,
  inl, inr,
}
use qar_mvp.Rtl.Timer.{Timer, has_bit, count_wdt, compare0, compare1, tick}

-- What neither the compare units nor the PWM channels change.
pub record Keeps (t u : Timer) : Type 0 where
  pub ctrl : u.ctrl ≡ t.ctrl
  pub prescale : u.prescale ≡ t.prescale
  pub counter : u.counter ≡ t.counter
  pub wdt_enable : u.wdt_enable ≡ t.wdt_enable
  pub wdt_load : u.wdt_load ≡ t.wdt_load
  pub wdt_counter : u.wdt_counter ≡ t.wdt_counter
  pub expired : bit_at u.status 2 ≡ bit_at t.status 2

Keeps-refl : (t : Timer) → Keeps t t
Keeps-refl t = record {
  ctrl = refl;
  prescale = refl;
  counter = refl;
  wdt_enable = refl;
  wdt_load = refl;
  wdt_counter = refl;
  expired = refl;
}

Keeps-trans : (t u v : Timer) → Keeps t u → Keeps u v → Keeps t v
Keeps-trans t u v h k = record {
  ctrl = k.ctrl ∙ h.ctrl;
  prescale = k.prescale ∙ h.prescale;
  counter = k.counter ∙ h.counter;
  wdt_enable = k.wdt_enable ∙ h.wdt_enable;
  wdt_load = k.wdt_load ∙ h.wdt_load;
  wdt_counter = k.wdt_counter ∙ h.wdt_counter;
  expired = k.expired ∙ h.expired;
}

compare0-Keeps : (s t : Timer) → Keeps t (compare0 s t)
compare0-Keeps s t = elim (Bool-cases (not (s.cmp0 == 0) && (s.counter == s.cmp0))) [
  | inl hit ↦ rw hit (record {
    ctrl = refl;
    prescale = refl;
    counter = refl;
    wdt_enable = refl;
    wdt_load = refl;
    wdt_counter = refl;
    expired = bit_at-bit_or t.status 1 2 ∙ omega arith;
  })
  | inr miss ↦ rw miss (Keeps-refl t)
]

compare1-Keeps : (s t : Timer) → Keeps t (compare1 s t)
compare1-Keeps s t = elim (Bool-cases (not (s.cmp1 == 0) && (s.counter == s.cmp1))) [
  | inl hit ↦ rw hit (record {
    ctrl = refl;
    prescale = refl;
    counter = refl;
    wdt_enable = refl;
    wdt_load = refl;
    wdt_counter = refl;
    expired = bit_at-bit_or t.status 2 2 ∙ omega arith;
  })
  | inr miss ↦ rw miss (Keeps-refl t)
]

-- This clock is a tick: the timer is enabled and the prescaler has run out.
pub record Ticks (s : Timer) : Type 0 where
  pub enabled : has_bit s.ctrl 0 ≡ true
  pub due : leb s.prescale s.prescale_cnt ≡ true

-- A tick assigns the watchdog and the counter as its own parts do.
pub tick-Keeps :
    (s t : Timer)
    → Ticks s
    → Keeps (count_wdt s (record t { prescale_cnt = 0; counter = u32 (s.counter + 1) })) (tick s t)
unfolding tick
tick-Keeps s t h =
    let u = count_wdt s (record t { prescale_cnt = 0; counter = u32 (s.counter + 1) }) in
    let both =
      Keeps-trans u (compare0 s u) (compare1 s (compare0 s u)) (compare0-Keeps s u)
        (compare1-Keeps s (compare0 s u)) in
    rw (h.enabled, h.due)
      (record {
        ctrl = both.ctrl;
        prescale = both.prescale;
        counter = both.counter;
        wdt_enable = both.wdt_enable;
        wdt_load = both.wdt_load;
        wdt_counter = both.wdt_counter;
        expired = both.expired;
      })
