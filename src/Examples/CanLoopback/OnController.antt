-- ===== src/Examples/CanLoopback/OnController.antt =====
-- devkit/examples/c/can_loopback.c on the controller of qar-core/rtl/can.v.
use qar_mvp.Prelude.{◌≡◌, Bool, false, some, bit_or, List}
use qar_mvp.Mmio.{Io, exec, ◌>>◌}
use qar_mvp.Hal.Can
use qar_mvp.Examples.CanLoopback.{can_base, send_frame, loopback_flags}
use qar_mvp.Examples.CanLoopback.Commands.{commands}
use qar_mvp.Rtl.Can.{Frame, Controller, has_bit, mailbox, clear_irq, can_bus}
use qar_mvp.Rtl.Can.Queue.{Queue, Holds}

abbrev pub queue : List Frame → Bool → Queue
queue frames overflow = record { frames = frames; overflow = overflow }

abbrev pub first : Frame
first = record { id = 0x123; dlc = 4; data0 = 0xDEADBEEF; data1 = 0 }

abbrev pub second : Frame
second = record { id = 0x321; dlc = 8; data0 = 0xCAFEBABE; data1 = 0x01020304 }

-- The registers when the first frame is about to be sent.
abbrev configured : Controller → Controller
configured s =
    let t =
      clear_irq 3
        (record s { bittime = 0x13; ctrl = 11; filter_id = 0x123; filter_mask = 0x7FF }) in
    record t { irq_en = bit_or t.irq_en 3 }

-- A run whose last access is a send command that changes nothing: the frame in the mailbox is not
-- sent, since the controller is disabled.
pub record EndsUnsent {A : Type 0} (io : Io A) (s : Controller) (f : Frame)
    (log : List (Bool × Frame)) (q : Queue) (x : A) : Type 0 where
  pub before : Controller
  pub runs : exec can_bus io s ≡ some (x, can_bus.put (Can.reg can_base Can.Reg.tx_cmd) 1 before)
  pub ignored : can_bus.put (Can.reg can_base Can.Reg.tx_cmd) 1 before ≡ before
  pub disabled : has_bit before.ctrl 0 ≡ false
  pub issued : commands io s ≡ log
  pub in_mailbox : mailbox before ≡ f
  pub holds : Holds before q

abbrev pub third : Frame
third = record { id = 0x200; dlc = 4; data0 = 0x11111111; data1 = 0 }

-- What follows the two frames.
abbrev quiet_part : Io (Unit {0})
quiet_part =
    Can.set_ctrl can_base (bit_or loopback_flags (Can.ctrl_flag Can.Ctrl.listen_only))
    >> send_frame 0x200 0x11111111 0 4
