-- ===== src/Rtl/Gpio/Debounce.antt =====
-- The level of a debounced pin of qar-core/rtl/gpio.v.
use qar_mvp.Prelude.{
  ℕ, ◌+◌, ◌^◌, ◌<◌, ◌≡◌, refl, sym, ap, ◌∙◌, Bool, true, false, ◌==◌, if◌then◌else◌, Option, none,
  some, List, [], ◌∷◌, arith,
}
use mathlib.Core.Path.{subst}
use qar_mvp.Rtl.Gpio.{
  Gpio, Inputs, Port, p_dir, p_out, p_in, p_out_set, p_out_clr, p_irq_en, p_irq_status, p_alt_pwm,
  p_irq_rise, p_irq_fall, p_db_en, p_db_cycles, p_none, threshold, bus_write, written, debounce,
  clock,
}
use qar_mvp.Rtl.Gpio.Samples.{settled, step, Fits, step-Fits}

-- A clock: the inputs, and the write if there is one.
pub record Moment : Type 0 where
  pub inputs : Inputs
  pub write : Option (Port × ℕ)

-- Some clocks, the last one first.
abbrev pub after : List Moment → Gpio → Gpio
after [] s = s
after (m ∷ h) s = clock m.write m.inputs (after h s)

abbrev pub samples : ℕ → List Moment → List Bool
samples pin [] = []
samples pin (m ∷ h) = m.inputs.pins pin ∷ samples pin h

-- The write is not to the directions, the debouncer or the rising edges.
abbrev pub is_steady : Option (Port × ℕ) → Bool
is_steady (some (p_dir, v)) = false
is_steady (some (p_db_en, v)) = false
is_steady (some (p_db_cycles, v)) = false
is_steady (some (p_irq_rise, v)) = false
is_steady _ = true

abbrev pub Steady : List Moment → Type 0
Steady [] = Unit
Steady (m ∷ h) = (is_steady m.write ≡ true) × Steady h

-- The registers that the configuration of a pin is in.
pub record Same (s t : Gpio) : Type 0 where
  pub dir : t.dir ≡ s.dir
  pub enable : t.debounce_enable ≡ s.debounce_enable
  pub cycles : t.debounce_cycles ≡ s.debounce_cycles
  pub rise : t.irq_rise ≡ s.irq_rise

Same-refl : (s : Gpio) → Same s s
Same-refl s = record { dir = refl; enable = refl; cycles = refl; rise = refl }

pub written-Same :
    (write : Option (Port × ℕ)) (s : Gpio) → is_steady write ≡ true → Same s (written write s)
unfolding bus_write
written-Same none s e = Same-refl s
written-Same (some (p_dir, v)) s e = ground arith
written-Same (some (p_db_en, v)) s e = ground arith
written-Same (some (p_db_cycles, v)) s e = ground arith
written-Same (some (p_irq_rise, v)) s e = ground arith
written-Same (some (p_out, v)) s e = record {
  dir = refl;
  enable = refl;
  cycles = refl;
  rise = refl;
}
written-Same (some (p_in, v)) s e = Same-refl s
written-Same (some (p_out_set, v)) s e = record {
  dir = refl;
  enable = refl;
  cycles = refl;
  rise = refl;
}
written-Same (some (p_out_clr, v)) s e = record {
  dir = refl;
  enable = refl;
  cycles = refl;
  rise = refl;
}
written-Same (some (p_irq_en, v)) s e = record {
  dir = refl;
  enable = refl;
  cycles = refl;
  rise = refl;
}
written-Same (some (p_irq_status, v)) s e = Same-refl s
written-Same (some (p_alt_pwm, v)) s e = record {
  dir = refl;
  enable = refl;
  cycles = refl;
  rise = refl;
}
written-Same (some (p_irq_fall, v)) s e = record {
  dir = refl;
  enable = refl;
  cycles = refl;
  rise = refl;
}
written-Same (some (p_none, v)) s e = Same-refl s

-- The pin is an input with its debouncer on.
pub record Debounces (pin thr : ℕ) (s : Gpio) : Type 0 where
  pub is_input : s.dir pin ≡ false
  pub enabled : s.debounce_enable pin ≡ true
  pub window : threshold s ≡ thr

clock-Debounces :
    (pin thr : ℕ) (m : Moment) (s : Gpio)
    → is_steady m.write ≡ true
    → Debounces pin thr s
    → Debounces pin thr (clock m.write m.inputs s)
unfolding clock
clock-Debounces pin thr m s steady d =
    let same = written-Same m.write s steady in
    record {
      is_input = ap (λ (f : ℕ → Bool). f pin) same.dir ∙ d.is_input;
      enabled = ap (λ (f : ℕ → Bool). f pin) same.enable ∙ d.enabled;
      window = ap (λ (n : ℕ). if n == 0 then 1 else n) same.cycles ∙ d.window;
    }

clock-step :
    (pin thr : ℕ) (m : Moment) (s : Gpio)
    → Debounces pin thr s
    → debounce m.inputs s pin
      ≡ step thr (m.inputs.pins pin) (s.debounced pin, s.debounce_counter pin)
clock-step pin thr m s d = rw (d.is_input, d.enabled, d.window) refl

pub after-Fits :
    (pin thr : ℕ) (h : List Moment) (s : Gpio)
    → Steady h
    → Debounces pin thr s
    → s.debounce_counter pin ≡ 0
    → thr < 2 ^ 16
    → Debounces pin thr (after h s)
      × Fits thr
          (s.debounced pin)
          (samples pin h)
          ((after h s).debounced pin, (after h s).debounce_counter pin)
unfolding clock
after-Fits pin thr [] s steady d started small =
    (d, record { level = refl; count = started; most = omega (arith, started) })
after-Fits pin thr (m ∷ h) s (now, before) d started small =
    let (g, f) = after-Fits pin thr h s before d started small in
    let t = after h s in
    (
      clock-Debounces pin thr m t now g,
      subst (Fits thr (s.debounced pin) (samples pin (m ∷ h))) (sym (clock-step pin thr m t g)) (
          step-Fits thr (s.debounced pin) (m.inputs.pins pin) (samples pin h)
            (t.debounced pin, t.debounce_counter pin) small f),
    )

-- On an input pin with its debouncer on, its counter at 0 and a window below 2 ^ 16, and without writes
-- to the directions, the debouncer or the rising edges: after any clocks, the debounced level is that of
-- the last samples that were equal for one clock more than the window, or the first level when there
-- have been none.
debounced-settled :
    (pin thr : ℕ) (h : List Moment) (s : Gpio)
    → Steady h
    → Debounces pin thr s
    → s.debounce_counter pin ≡ 0
    → thr < 2 ^ 16
    → (after h s).debounced pin ≡ settled (thr + 1) (s.debounced pin) (samples pin h)
debounced-settled pin thr h s steady d started small =
    (after-Fits pin thr h s steady d started small).1.level
