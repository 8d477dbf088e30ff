-- ===== src/Hal/Windows/Spi.antt =====
-- The functions of devkit/hal/spi.h and their register window.
use qar_mvp.Prelude.{ℕ, arith, IsU32}
use qar_mvp.Mmio.{Io, ret, wait_for, store, load}
use qar_mvp.Mmio.Device.{Accesses->>=}
use qar_mvp.Hal.Windows.Defs.{InWindow, IsBase, Stays, discard, bit_or-IsU32, wait_for-Accesses}
use qar_mvp.Hal.Spi

pub data Call : Type 0 where
  init : ℕ → ℕ → Call
  set_cs : ℕ → Call
  write : ℕ → ℕ → Call
  read : ℕ → Call
  read_fault_status : Call

-- What the call does at a base address.
abbrev pub run : ℕ → Call → Io (Unit {0})
run base (init x y) = Spi.init base x y
run base (set_cs x) = Spi.set_cs base x
run base (write x y) = Spi.write x base y
run base (read x) = discard (Spi.read x base)
run base read_fault_status = discard (Spi.read_fault_status base)

-- The arguments have the widths that the prototype gives them.
abbrev pub Fits : Call → Type 0
Fits (init x y) = IsU32 x × IsU32 y
Fits (set_cs x) = IsU32 x
Fits (write _ y) = IsU32 y
Fits (read _) = Unit
Fits read_fault_status = Unit

-- Whatever the call and the answers of the hardware, only words of the window are accessed,
-- and only 32-bit values are written.
pub spi_run-Stays : (base : ℕ) (c : Call) → IsBase base 0x24 → Fits c → Stays base 0x24 (run base c)
unfolding Spi.init Spi.set_cs Spi.write Spi.read Spi.read_fault_status
spi_run-Stays base (init x y) h f = omega (arith, bit_or-IsU32)
spi_run-Stays base (set_cs x) h f = omega arith
spi_run-Stays base (write x y) h f =
    Accesses->>= (InWindow base 0x24) (wait_for x (Spi.reg base Spi.Reg.status) 1)
      (λ _. store (Spi.reg base Spi.Reg.txdata) y) (wait_for-Accesses _ x _ _ (omega arith))
      (λ _. omega arith)
spi_run-Stays base (read x) h f =
    Accesses->>= (InWindow base 0x24) (Spi.read x base) (λ _. ret tt)
      (Accesses->>= (InWindow base 0x24) (wait_for x (Spi.reg base Spi.Reg.status) 2)
        (λ _. load (Spi.reg base Spi.Reg.rxdata)) (wait_for-Accesses _ x _ _ (omega arith))
        (λ _. omega arith))
      (λ _. tt)
spi_run-Stays base read_fault_status h f = omega arith
