-- ===== src/Rtl/Gpio/Edges.antt =====
-- The interrupts of qar-core/rtl/gpio.v.
use qar_mvp.Prelude.{ℕ, ◌+◌, ◌^◌, ◌<◌, ◌≡◌, refl, ap, ◌∙◌, Bool, true, false, ◌||◌, List, [], ◌∷◌}
use qar_mvp.Rtl.Gpio.{Gpio, clear_mask, events, filtered, clock}
use qar_mvp.Rtl.Gpio.Samples.{settled}
use qar_mvp.Rtl.Gpio.Debounce.{Moment, after, samples, Steady, Debounces, written-Same, after-Fits}

after-rise : (h : List Moment) (s : Gpio) → Steady h → (after h s).irq_rise ≡ s.irq_rise
unfolding clock
after-rise [] s steady = refl
after-rise (m ∷ h) s (now, before) =
    (written-Same m.write (after h s) now).rise ∙ after-rise h s before

-- The pin's bit is not written to the interrupt status.
abbrev pub Uncleared : ℕ → List Moment → Type 0
Uncleared pin [] = Unit
Uncleared pin (m ∷ h) = (clear_mask m.write pin ≡ false) × Uncleared pin h

status-Kept :
    (pin : ℕ) (later : List Moment) (s : Gpio)
    → Uncleared pin later
    → s.irq_status pin ≡ true
    → (after later s).irq_status pin ≡ true
unfolding clock
status-Kept pin [] s u set = set
status-Kept pin (m ∷ later) s (now, before) set =
    let still = status-Kept pin later s before set in rw (still, now) refl

events_rise :
    (pin : ℕ) (s : Gpio)
    → s.last_input pin ≡ false
    → filtered s pin ≡ true
    → s.irq_rise pin ≡ true
    → events s pin ≡ true
events_rise pin s was is watched = rw (was, is, watched) refl

or_true : (a : Bool) {b : Bool} → b ≡ true → (a || b) ≡ true
or_true true e = refl
or_true false e = e

-- On an input pin with its debouncer on, its counter at 0, a window below 2 ^ 16 and its rising edge
-- watched, and without writes to the directions, the debouncer or the rising edges: when the settled
-- level rises in a clock, then in the next clock, even if the pin's interrupt is cleared in it, and as
-- long as it is not cleared after that, the pin's interrupt status is set.
pub rise-Latched :
    (pin thr : ℕ) (later : List Moment) (next now : Moment) (h : List Moment) (s : Gpio)
    → Steady (next ∷ now ∷ h)
    → Debounces pin thr s
    → s.debounce_counter pin ≡ 0
    → thr < 2 ^ 16
    → s.irq_rise pin ≡ true
    → settled (thr + 1) (s.debounced pin) (samples pin h) ≡ false
    → settled (thr + 1) (s.debounced pin) (samples pin (now ∷ h)) ≡ true
    → Uncleared pin later
    → (after later (after (next ∷ now ∷ h) s)).irq_status pin ≡ true
unfolding clock
rise-Latched pin thr later next now h s (last, steady) d started small watched low high uncleared =
    let (g, f) = after-Fits pin thr (now ∷ h) s steady d started small in
    let (g', f') = after-Fits pin thr h s steady.1 d started small in
    let watching = ap (λ (x : ℕ → Bool). x pin) (after-rise (now ∷ h) s steady) ∙ watched in
    let was = f'.level ∙ low in
    let is = f.level ∙ high in
    let event : events (after (now ∷ h) s) pin ≡ true =
      events_rise pin (after (now ∷ h) s) (rw (g'.is_input, was) refl) (rw (g.is_input, is) refl)
        watching in
    status-Kept pin later (after (next ∷ now ∷ h) s) uncleared (or_true _ event)
