-- ===== src/Rtl/Gpio/Driver.antt =====
-- `qar_gpio_read` of devkit/hal/gpio.h on qar-core/rtl/gpio.v.
use qar_mvp.Prelude.{
  ℕ, zero, suc, ◌+◌, ◌/◌, ◌%◌, ◌^◌, ◌<◌, ◌≡◌, refl, ap, ◌∙◌, Bool, ◌&&◌, ◌||◌, if◌then◌else◌,
  bit_at, none, some, List, arith,
}
use qar_mvp.Mmio.{Bus, exec}
use qar_mvp.Hal.Gpio as Driver
use qar_mvp.Rtl.Gpio.{Gpio, Inputs, Pins, hw_out, filtered, p_in, port_of, clock, word_of, bus_read}
use qar_mvp.Rtl.Gpio.Samples.{settled}
use qar_mvp.Rtl.Gpio.Debounce.{Moment, after, samples, Steady, Debounces, after-Fits}

-- The pins as a driver sees them whose accesses all select them, with an access in each clock. Bits 2
-- to 6 of the address are `gpio_addr_word` of qar-core/rtl/qar_core.v.
abbrev pub gpio_bus : Inputs → Bus Gpio
gpio_bus x = record {
  get = λ a s. (bus_read (port_of (a / 4 % 32)) x s, clock none x s);
  put = λ a v s. clock (some (port_of (a / 4 % 32), v)) x s;
}

bit_at-word_of : (n k : ℕ) (f : Pins) → k < n → bit_at (word_of n f) k ≡ (if f k then 1 else 0)
bit_at-word_of zero k f h = absurd (omega arith)
bit_at-word_of (suc n) zero f h = ground arith
bit_at-word_of (suc n) (suc k) f h =
    let rest : word_of (suc n) f / 2 ≡ word_of n (λ i. f (i + 1)) = ground arith in
    let next : k + 1 ≡ suc k = omega arith in
    ap (λ v. bit_at v k) rest
    ∙ bit_at-word_of n k (λ i. f (i + 1)) (omega arith)
    ∙ ap (λ i. if f i then 1 else 0) next

-- On an input pin below 32 with its debouncer on, its counter at 0 and a window below 2 ^ 16, and
-- without writes to the directions, the debouncer or the rising edges: after any clocks, `qar_gpio_read`
-- ends, and the pin's bit of the result is the level of the last samples that were equal for one clock
-- more than the window, or the first level when there have been none.
pub read-settled :
    (x : Inputs) (pin thr : ℕ) (h : List Moment) (s : Gpio)
    → pin < 32
    → Steady h
    → Debounces pin thr s
    → s.debounce_counter pin ≡ 0
    → thr < 2 ^ 16
    → (v : ℕ) × (t : Gpio) × (exec (gpio_bus x) (Driver.read Driver.gpio0_base) (after h s)
        ≡ some (v, t))
      × (bit_at v pin ≡ (if settled (thr + 1) (s.debounced pin) (samples pin h) then 1 else 0))
unfolding Driver.read bus_read
read-settled x pin thr h s low steady d started small =
    let (g, f) = after-Fits pin thr h s steady d started small in
    let t = after h s in
    let shown : ((t.dir pin && hw_out x t pin) || filtered t pin)
        ≡ settled (thr + 1) (s.debounced pin) (samples pin h) =
      rw g.is_input f.level in
    (
      bus_read p_in x t,
      clock none x t,
      refl,
      bit_at-word_of 32 pin (λ i. (t.dir i && hw_out x t i) || filtered t i) low
          ∙ ap (λ (b : Bool). if b then 1 else 0) shown,
    )
