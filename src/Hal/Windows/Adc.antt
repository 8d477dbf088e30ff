-- ===== src/Hal/Windows/Adc.antt =====
-- The functions of devkit/hal/adc.h and their register window.
use qar_mvp.Prelude.{ℕ, ◌^◌, ◌<◌, bit_and-le, arith, IsU32}
use qar_mvp.Mmio.{Io}
use qar_mvp.Hal.Windows.Defs.{IsBase, Stays, discard, bit_or-IsU32}
use qar_mvp.Hal.Adc
use qar_mvp.Hal.Fields.{single_word_lem}

pub data Call : Type 0 where
  set_sequence : ℕ → ℕ → Call
  enable_continuous : ℕ → ℕ → Call
  disable_continuous : Call
  start_single : ℕ → Call
  read_status : Call
  read_result : Call
  enable_irq : ℕ → Call
  clear_irq : ℕ → Call

-- What the call does at a base address.
abbrev pub run : ℕ → Call → Io (Unit {0})
run base (set_sequence x y) = Adc.set_sequence base x y
run base (enable_continuous x y) = Adc.enable_continuous base x y
run base disable_continuous = Adc.disable_continuous base
run base (start_single x) = Adc.start_single base x
run base read_status = discard (Adc.read_status base)
run base read_result = discard (Adc.read_result base)
run base (enable_irq x) = Adc.enable_irq base x
run base (clear_irq x) = Adc.clear_irq base x

-- The arguments have the widths that the prototype gives them.
abbrev pub Fits : Call → Type 0
Fits (set_sequence x y) = IsU32 x × (y < 2 ^ 16)
Fits (enable_continuous x y) = IsU32 x × (y < 2 ^ 16)
Fits disable_continuous = Unit
Fits (start_single x) = IsU32 x
Fits read_status = Unit
Fits read_result = Unit
Fits (enable_irq x) = IsU32 x
Fits (clear_irq x) = IsU32 x

-- Whatever the call and the answers of the hardware, only words of the window are accessed,
-- and only 32-bit values are written.
pub adc_run-Stays : (base : ℕ) (c : Call) → IsBase base 0x1C → Fits c → Stays base 0x1C (run base c)
unfolding Adc.set_sequence Adc.enable_continuous Adc.disable_continuous Adc.start_single
    Adc.read_status Adc.read_result Adc.enable_irq Adc.clear_irq
adc_run-Stays base (set_sequence x y) h f = omega (arith, bit_and-le)
adc_run-Stays base (enable_continuous x y) h f = omega (arith, bit_and-le)
adc_run-Stays base disable_continuous h f = omega arith
adc_run-Stays base (start_single x) h f = omega (arith, single_word_lem x f)
adc_run-Stays base read_status h f = omega arith
adc_run-Stays base read_result h f = omega arith
adc_run-Stays base (enable_irq x) h f = omega (arith, bit_or-IsU32)
adc_run-Stays base (clear_irq x) h f = omega arith
