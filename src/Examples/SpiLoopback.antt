-- ===== src/Examples/SpiLoopback.antt =====
-- devkit/examples/c/spi_loopback.c.
pub mod Laws
use qar_mvp.Prelude.{ℕ, bit_and, u8}
use qar_mvp.Mmio.{Io, ret, load, wait_for, ◌>>=◌, ◌>>◌}
use qar_mvp.Hal.Spi

abbrev pub spi_base : ℕ
spi_base = Spi.spi0_base

-- The two polling loops have the same budget.
unfoldable pub spi_exchange : ℕ → ℕ → Io ℕ
spi_exchange budget value = do
  Spi.write budget spi_base value
  wait_for budget (Spi.reg spi_base Spi.Reg.status) (Spi.status_flag Spi.Status.rx_valid)
  v ← load (Spi.reg spi_base Spi.Reg.rxdata)
  ret (u8 (bit_and v 0xFF))

-- The result is `rx0` and `rx1`, which the example drops.
unfoldable pub main : ℕ → Io (ℕ × ℕ)
unfolding Spi.init Spi.set_cs
main budget = do
  Spi.init spi_base 1 (Spi.ctrl_flag Spi.Ctrl.loopback)
  Spi.set_cs spi_base 0x1
  rx0 ← spi_exchange budget 0xA5
  rx1 ← spi_exchange budget 0x3C
  ret (rx0, rx1)
