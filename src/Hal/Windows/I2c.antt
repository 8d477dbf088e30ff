-- ===== src/Hal/Windows/I2c.antt =====
-- The functions of devkit/hal/i2c.h and their register window.
use qar_mvp.Prelude.{ℕ, arith, IsU32, IsByte}
use qar_mvp.Mmio.{Io}
use qar_mvp.Hal.Windows.Defs.{IsBase, Stays, discard}
use qar_mvp.Hal.I2c

pub data Call : Type 0 where
  init : ℕ → Call
  stage_tx : ℕ → Call
  issue_cmd : ℕ → Call
  pop_rx : Call
  read_fault_status : Call

-- What the call does at a base address.
abbrev pub run : ℕ → Call → Io (Unit {0})
run base (init x) = I2c.init base x
run base (stage_tx x) = I2c.stage_tx base x
run base (issue_cmd x) = I2c.issue_cmd base x
run base pop_rx = discard (I2c.pop_rx base)
run base read_fault_status = discard (I2c.read_fault_status base)

-- The arguments have the widths that the prototype gives them.
abbrev pub Fits : Call → Type 0
Fits (init x) = IsU32 x
Fits (stage_tx x) = IsByte x
Fits (issue_cmd x) = IsU32 x
Fits pop_rx = Unit
Fits read_fault_status = Unit

-- Whatever the call and the answers of the hardware, only words of the window are accessed,
-- and only 32-bit values are written.
pub i2c_run-Stays : (base : ℕ) (c : Call) → IsBase base 0x24 → Fits c → Stays base 0x24 (run base c)
unfolding I2c.init I2c.stage_tx I2c.issue_cmd I2c.pop_rx I2c.read_fault_status
i2c_run-Stays base (init x) h f = omega arith
i2c_run-Stays base (stage_tx x) h f = omega arith
i2c_run-Stays base (issue_cmd x) h f = omega arith
i2c_run-Stays base pop_rx h f = omega arith
i2c_run-Stays base read_fault_status h f = omega arith
