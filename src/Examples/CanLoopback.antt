-- ===== src/Examples/CanLoopback.antt =====
-- devkit/examples/c/can_loopback.c.
pub mod Laws
pub mod Commands
pub mod OnController
use qar_mvp.Prelude.{ℕ, Bool, true, not, bit_and, bit_or, ltb}
use qar_mvp.Mmio.{Io, ret, store, poll_until, ◌>>=◌, ◌>>◌}
use qar_mvp.Hal.Can

abbrev pub can_base : ℕ
can_base = Can.can0_base

unfoldable pub send_frame : ℕ → ℕ → ℕ → ℕ → Io (Unit {0})
unfolding Can.send_word
send_frame id data0 data1 dlc = Can.send_word can_base id data0 data1 dlc

-- The values that the frame at the head of the FIFO has; the example drops them.
unfoldable pub drain_rx : Io (Unit {0})
unfolding Can.read_payload Can.pop_rx
drain_rx = do
  payload ← Can.read_payload can_base (record { id = true; data0 = true; data1 = true })
  Can.pop_rx can_base

-- `while (qar_can_rx_count(CAN_BASE) < 2) ;`
abbrev pub two_pending : ℕ → Bool
two_pending v = not (ltb (bit_and v 0x7) 2)

abbrev pub loopback_flags : ℕ
loopback_flags = bit_or (Can.ctrl_flag Can.Ctrl.loopback) (Can.ctrl_flag Can.Ctrl.filter_bypass)

-- Up to the polling loop.
unfoldable pub set_up : Io (Unit {0})
unfolding Can.init Can.enable_irq send_frame
set_up = do
  Can.init can_base 0x00000013 loopback_flags
  store (Can.reg can_base Can.Reg.filter_id) 0x123
  store (Can.reg can_base Can.Reg.filter_mask) 0x7FF
  Can.enable_irq can_base (bit_or (Can.irq_flag Can.Irq.rx_ready) (Can.irq_flag Can.Irq.tx_done))
  send_frame 0x123 0xDEADBEEF 0 4
  send_frame 0x321 0xCAFEBABE 0x01020304 8

-- Behind it.
unfoldable pub go_quiet : Io (Unit {0})
unfolding drain_rx Can.set_ctrl send_frame
go_quiet = do
  drain_rx
  drain_rx
  Can.set_ctrl can_base (bit_or loopback_flags (Can.ctrl_flag Can.Ctrl.listen_only))
  send_frame 0x200 0x11111111 0 4

unfoldable pub main : ℕ → Io (Unit {0})
main budget = do
  set_up
  rounds ← poll_until two_pending budget (Can.reg can_base Can.Reg.rx_fifo)
  go_quiet
