-- ===== src/Hal/Transfers.antt =====
-- The byte and word transfers of devkit/hal/uart.h and devkit/hal/spi.h that poll a status flag.
use mathlib.Core.Path.{fun_ext}
use qar_mvp.Prelude.{
  ℕ, zero, suc, ◌<◌, ◌%◌, pos, negsuc, bit_and, bit_at, bit_and_mask, ◌≡◌, refl, ap, none, some,
  arith, ◌⊎◌, inl, inr, true, false, not, ◌==◌,
}
use qar_mvp.Mmio.{Io, ret, read, load, store, Bus, exec, wait_for, ◌>>◌}
use qar_mvp.Mmio.Polling.{polled, ReadyAfter, Busy, wait_for_ready, wait_for-Busy, ready_or_Busy}
use qar_mvp.Hal.Uart
use qar_mvp.Hal.Spi

-- A driver that polls `mask` at `a` and then does `k`: within the budget the flag comes up after
-- `n` polls, and `k` runs from the state behind the polls; or it stays down, and the driver is
-- still polling, with `k` not begun.
abbrev pub PollsThen : {S A : Type 0} → Bus S → ℕ → ℕ → ℕ → Io A → Io A → S → Type 0
PollsThen bus a mask budget k driver s =
    ((n : ℕ) × (n < budget)
      × ReadyAfter bus a mask n s
      × (exec bus driver s ≡ exec bus k (polled bus a mask (suc n) s)))
    ⊎ (Busy bus a mask budget s × (exec bus driver s ≡ none))

wait_for-PollsThen :
    {S A : Type 0} (bus : Bus S) (a mask budget : ℕ) (k : Io A) (s : S)
    → PollsThen bus a mask budget k (wait_for budget a mask >> k) s
wait_for-PollsThen bus a mask budget k s = elim (ready_or_Busy bus a mask budget s) [
  | inl (n, below, up) ↦ inl (n, below, up, wait_for_ready bus a mask k n budget s below up)
  | inr busy ↦ inr (busy, wait_for-Busy bus a mask k budget s busy)
]

pub wait_can_write-eq-wait_for :
    (budget base : ℕ)
    → Uart.wait_can_write budget base
      ≡ wait_for budget (Uart.reg base Uart.Reg.status) (Uart.status_flag Uart.Status.tx_space)
unfolding Uart.wait_can_write wait_for
wait_can_write-eq-wait_for zero base = refl
wait_can_write-eq-wait_for (suc budget) base =
    ap (read (Uart.reg base Uart.Reg.status))
      (fun_ext λ v. round (wait_can_write-eq-wait_for budget base) (bit_and v 2))
  where
    round :
        Uart.wait_can_write budget base ≡ wait_for budget (Uart.reg base Uart.Reg.status) 2
        → (x : ℕ)
        → ◌≡◌ {A = Io (Unit {0})}
            (elim (not (x == 0)) [ true ↦ ret tt | false ↦ Uart.wait_can_write budget base ])
            (elim x [ zero ↦ wait_for budget (Uart.reg base Uart.Reg.status) 2 | suc _ ↦ ret tt ])
    round ih zero = ih
    round ih (suc x) = ground arith

-- `qar_uart_write`, `qar_spi_write` and `qar_spi_read` touch the data register only once the flag
-- is up: space in the transmit FIFO, a ready transmitter, a received word. On every hardware they
-- either end so within the budget, or are still polling.
pub transfers_lem :
    {S : Type 0} (bus : Bus S) (base budget v : ℕ) (s : S)
    → PollsThen bus
        (Uart.reg base Uart.Reg.status)
        (Uart.status_flag Uart.Status.tx_space)
        budget
        (store (Uart.reg base Uart.Reg.fifo) v)
        (Uart.write budget base v)
        s
      × PollsThen bus
          (Spi.reg base Spi.Reg.status)
          (Spi.status_flag Spi.Status.tx_ready)
          budget
          (store (Spi.reg base Spi.Reg.txdata) v)
          (Spi.write budget base v)
          s
      × PollsThen bus
          (Spi.reg base Spi.Reg.status)
          (Spi.status_flag Spi.Status.rx_valid)
          budget
          (load (Spi.reg base Spi.Reg.rxdata))
          (Spi.read budget base)
          s
unfolding Uart.write Spi.write Spi.read
transfers_lem bus base budget v s = (
  rw wait_can_write-eq-wait_for (wait_for-PollsThen bus _ _ budget _ s),
  wait_for-PollsThen bus _ _ budget _ s,
  wait_for-PollsThen bus _ _ budget _ s,
)

even_or_odd : (v : ℕ) → (v % 2 ≡ 0) ⊎ (v % 2 ≡ 1)
even_or_odd v = ground arith

-- `qar_uart_read` pops the receive FIFO only when a byte is there. The result is then that byte;
-- otherwise it is -1, and the status is all that was read.
pub uart_read_lem :
    {S : Type 0} (bus : Bus S) (base : ℕ) (s : S)
    → let (v, t) = bus.get (Uart.reg base Uart.Reg.status) s in
      let (w, u) = bus.get (Uart.reg base Uart.Reg.fifo) t in
      ((bit_at v 0 ≡ 0) × (exec bus (Uart.read base) s ≡ some (negsuc 0, t)))
      ⊎ ((bit_at v 0 ≡ 1) × (exec bus (Uart.read base) s ≡ some (pos (w % 256), u)))
unfolding Uart.read
uart_read_lem bus base s =
    let v = (bus.get (Uart.reg base Uart.Reg.status) s).0 in
    let t = (bus.get (Uart.reg base Uart.Reg.status) s).1 in
    let w = (bus.get (Uart.reg base Uart.Reg.fifo) t).0 in
    elim (even_or_odd v) [
      | inl even ↦
          let flag : bit_and v 1 ≡ 0 = omega (arith, bit_and_mask 1 v) in
          inl (even, rw (flag, exec) refl)
      | inr odd ↦
          let flag : bit_and v 1 ≡ 1 = omega (arith, bit_and_mask 1 v) in
          inr (odd, rw (flag, exec) (rw (bit_and_mask 8 w) refl))
    ]
