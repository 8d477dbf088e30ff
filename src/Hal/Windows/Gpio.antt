-- ===== src/Hal/Windows/Gpio.antt =====
-- The functions of devkit/hal/gpio.h and their register window.
use qar_mvp.Prelude.{ℕ, ◌^◌, ◌<◌, arith, IsU32}
use qar_mvp.Mmio.{Io}
use qar_mvp.Hal.Windows.Defs.{IsBase, Stays, discard}
use qar_mvp.Hal.Gpio

pub data Call : Type 0 where
  config_dir : ℕ → Call
  write : ℕ → Call
  set : ℕ → Call
  clear : ℕ → Call
  read : Call
  config_irq : ℕ → ℕ → ℕ → Call
  config_debounce : ℕ → ℕ → Call
  clear_irq : ℕ → Call

-- What the call does at a base address.
abbrev pub run : ℕ → Call → Io (Unit {0})
run base (config_dir x) = Gpio.config_dir base x
run base (write x) = Gpio.write base x
run base (set x) = Gpio.set base x
run base (clear x) = Gpio.clear base x
run base read = discard (Gpio.read base)
run base (config_irq x y z) = Gpio.config_irq base x y z
run base (config_debounce x y) = Gpio.config_debounce base x y
run base (clear_irq x) = Gpio.clear_irq base x

-- The arguments have the widths that the prototype gives them.
abbrev pub Fits : Call → Type 0
Fits (config_dir x) = IsU32 x
Fits (write x) = IsU32 x
Fits (set x) = IsU32 x
Fits (clear x) = IsU32 x
Fits read = Unit
Fits (config_irq x y z) = IsU32 x × IsU32 y × IsU32 z
Fits (config_debounce x y) = IsU32 x × (y < 2 ^ 16)
Fits (clear_irq x) = IsU32 x

-- Whatever the call and the answers of the hardware, only words of the window are accessed,
-- and only 32-bit values are written.
pub gpio_run-Stays :
    (base : ℕ) (c : Call) → IsBase base 0x30 → Fits c → Stays base 0x30 (run base c)
unfolding Gpio.config_dir Gpio.write Gpio.set Gpio.clear Gpio.read Gpio.config_irq
    Gpio.config_debounce Gpio.clear_irq
gpio_run-Stays base (config_dir x) h f = omega arith
gpio_run-Stays base (write x) h f = omega arith
gpio_run-Stays base (set x) h f = omega arith
gpio_run-Stays base (clear x) h f = omega arith
gpio_run-Stays base read h f = omega arith
gpio_run-Stays base (config_irq x y z) h f = omega arith
gpio_run-Stays base (config_debounce x y) h f = omega arith
gpio_run-Stays base (clear_irq x) h f = omega arith
