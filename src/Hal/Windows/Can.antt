-- ===== src/Hal/Windows/Can.antt =====
-- The functions of devkit/hal/can.h and their register window.
use qar_mvp.Prelude.{ℕ, bit_and-le, arith, IsU32, IsByte, Bool, true, false}
use qar_mvp.Mmio.{Io, ret}
use qar_mvp.Mmio.Device.{Accesses->>=}
use qar_mvp.Hal.Windows.Defs.{InWindow, IsBase, Stays, discard, bit_or-IsU32}
use qar_mvp.Hal.Can

pub data Call : Type 0 where
  init : ℕ → ℕ → Call
  set_ctrl : ℕ → Call
  enable_irq : ℕ → Call
  disable_irq : ℕ → Call
  clear_irq : ℕ → Call
  send_word : ℕ → ℕ → ℕ → ℕ → Call
  read_rx_ready : Call
  read_payload : Can.Wanted → Call
  pop_rx : Call
  flush_rx : Call
  rx_count : Call

-- What the call does at a base address.
abbrev pub run : ℕ → Call → Io (Unit {0})
run base (init x y) = Can.init base x y
run base (set_ctrl x) = Can.set_ctrl base x
run base (enable_irq x) = Can.enable_irq base x
run base (disable_irq x) = Can.disable_irq base x
run base (clear_irq x) = Can.clear_irq base x
run base (send_word x y z u) = Can.send_word base x y z u
run base read_rx_ready = discard (Can.read_rx_ready base)
run base (read_payload x) = discard (Can.read_payload base x)
run base pop_rx = Can.pop_rx base
run base flush_rx = Can.flush_rx base
run base rx_count = discard (Can.rx_count base)

-- The arguments have the widths that the prototype gives them.
abbrev pub Fits : Call → Type 0
Fits (init x y) = IsU32 x × IsU32 y
Fits (set_ctrl x) = IsU32 x
Fits (enable_irq x) = IsU32 x
Fits (disable_irq x) = IsU32 x
Fits (clear_irq x) = IsU32 x
Fits (send_word x y z u) = IsU32 x × IsU32 y × IsU32 z × IsByte u
Fits read_rx_ready = Unit
Fits (read_payload _) = Unit
Fits pop_rx = Unit
Fits flush_rx = Unit
Fits rx_count = Unit

payload :
    (base : ℕ) → IsBase base 0x48 → (w : Can.Wanted) → Stays base 0x48 (Can.read_payload base w)
unfolding Can.read_payload
payload base h w =
    Accesses->>= _ (Can.load_if w.id (Can.reg base Can.Reg.rx_id)) _
      (one w.id Can.Reg.rx_id (omega arith))
      λ i.
        Accesses->>= _ (Can.load_if w.data0 (Can.reg base Can.Reg.rx_data0)) _
          (one w.data0 Can.Reg.rx_data0 (omega arith))
          λ d0.
            Accesses->>= _ (Can.load_if w.data1 (Can.reg base Can.Reg.rx_data1)) _
              (one w.data1 Can.Reg.rx_data1 (omega arith)) λ d1. tt
  where
    one :
        (b : Bool) (r : Can.Reg)
        → InWindow base 0x48 (Can.reg base r)
        → Stays base 0x48 (Can.load_if b (Can.reg base r))
    one true r k = (k, λ v u. tt)
    one false r k = tt

-- Whatever the call and the answers of the hardware, only words of the window are accessed,
-- and only 32-bit values are written.
pub can_run-Stays : (base : ℕ) (c : Call) → IsBase base 0x48 → Fits c → Stays base 0x48 (run base c)
unfolding Can.init Can.set_ctrl Can.enable_irq Can.disable_irq Can.clear_irq Can.send_word
    Can.read_rx_ready Can.read_payload Can.pop_rx Can.flush_rx Can.rx_count
can_run-Stays base (init x y) h f = omega (arith, bit_or-IsU32)
can_run-Stays base (set_ctrl x) h f = omega arith
can_run-Stays base (enable_irq x) h f = omega (arith, bit_or-IsU32)
can_run-Stays base (disable_irq x) h f = omega (arith, bit_and-le)
can_run-Stays base (clear_irq x) h f = omega arith
can_run-Stays base (send_word x y z u) h f = omega arith
can_run-Stays base read_rx_ready h f = omega arith
can_run-Stays base (read_payload x) h f =
    Accesses->>= (InWindow base 0x48) (Can.read_payload base x) (λ _. ret tt) (payload base h x)
      (λ _. tt)
can_run-Stays base pop_rx h f = omega arith
can_run-Stays base flush_rx h f = omega arith
can_run-Stays base rx_count h f = omega arith
