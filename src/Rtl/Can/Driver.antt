-- ===== src/Rtl/Can/Driver.antt =====
-- devkit/hal/can.h on the controller of qar-core/rtl/can.v.
use qar_mvp.Prelude.{
  ℕ, ◌<◌, ◌≡◌, refl, ap, ◌∙◌, Bool, true, false, if◌then◌else◌, Option, none, some, bit_and,
  bit_and_mask, List, [], ◌∷◌, ◌++◌, length, drop, arith, ltb,
}
use qar_mvp.Mmio.{Io, exec, exec->>=, ◌>>=◌}
use qar_mvp.Hal.Can
use qar_mvp.Rtl.Can.{
  Frame, Controller, has_bit, receive, send, fifo_control, p_rx_fifo, bus_write, bus_read, can_bus,
  port_of, addr_word,
}
use qar_mvp.Rtl.Can.Queue.{Queue, Holds, send-Holds, fifo_control-Holds}
use qar_mvp.Rtl.Can.Reads.{Holds-Shows}

abbrev pub base : ℕ
base = Can.can0_base

-- The controller is enabled and copies every frame back: loopback, filter bypass, not listen-only.
pub record Copies (ctrl : ℕ) : Type 0 where
  pub enabled : has_bit ctrl 0 ≡ true
  pub loopback : has_bit ctrl 1 ≡ true
  pub loud : has_bit ctrl 2 ≡ false
  pub bypass : has_bit ctrl 3 ≡ true

-- A run to a state whose registers stand for a queue, with the control register as it was.
pub record Runs {A : Type 0} (io : Io A) (s : Controller) (x : A) (q : Queue) : Type 0 where
  pub after : Controller
  pub runs : exec can_bus io s ≡ some (x, after)
  pub holds : Holds after q
  pub same_ctrl : after.ctrl ≡ s.ctrl

send-ctrl : (s : Controller) → (send s).ctrl ≡ s.ctrl
unfolding send receive
send-ctrl s = ground arith

pub Runs->>= :
    {A B : Type 0} (m : Io A) (k : A → Io B) (s : Controller) {x : A} {y : B} {q r : Queue}
    (first : Runs m s x q)
    → Runs (k x) first.after y r
    → Runs (m >>= k) s y r
Runs->>= m k s first second = record {
  after = second.after;
  runs = exec->>= can_bus m k s first.runs ∙ second.runs;
  holds = second.holds;
  same_ctrl = second.same_ctrl ∙ first.same_ctrl;
}

abbrev pub sent : Frame → Queue → Queue
sent f q = record q { frames = q.frames ++ (f ∷ []) }

pub send_word-Runs :
    (f : Frame) (s : Controller) (q : Queue)
    → Holds s q
    → Copies s.ctrl
    → length q.frames < 4
    → Runs (Can.send_word base f.id f.data0 f.data1 f.dlc) s tt (sent f q)
unfolding Can.send_word bus_write
send_word-Runs f s q h c room =
    let t = record s { tx_id = f.id; tx_dlc = f.dlc; tx_data0 = f.data0; tx_data1 = f.data1 } in
    let ready : ltb (length q.frames) 4 ≡ true = ground arith in
    let held : Holds (send t) (sent f q) =
      rw (c.enabled, c.loopback, c.loud, c.bypass, ready) at (send-Holds t q h) in
    record { after = send t; runs = refl; holds = held; same_ctrl = send-ctrl t }

load_if-exec :
    {A : Type 0} (w : Bool) (a : ℕ) (k : Option ℕ → Io A) (s : Controller)
    → exec can_bus (Can.load_if w a >>= k) s
      ≡ exec can_bus (k (if w then some (bus_read (port_of (addr_word a)) s) else none)) s
load_if-exec true a k s = refl
load_if-exec false a k s = refl

-- What `qar_can_read_payload` stores of a frame: nothing through a null pointer.
abbrev pub payload_of : Can.Wanted → Frame → Can.Payload
payload_of want f = record {
  id = if want.id then some f.id else none;
  data0 = if want.data0 then some f.data0 else none;
  data1 = if want.data1 then some f.data1 else none;
}

pub read_payload-Runs :
    (want : Can.Wanted) (f : Frame) (fs : List Frame) (overflow : Bool) (s : Controller)
    → Holds s (record { frames = f ∷ fs; overflow = overflow })
    → Runs
        (Can.read_payload base want)
        s
        (payload_of want f)
        (record { frames = f ∷ fs; overflow = overflow })
unfolding Can.read_payload
read_payload-Runs want f fs overflow s h =
    let (i, l, d0, d1) =
      (Holds-Shows s (record { frames = f ∷ fs; overflow = overflow }) h).oldest in
    record {
      after = s;
      runs =
          load_if-exec want.id _ _ s
          ∙ load_if-exec want.data0 _ _ s
          ∙ load_if-exec want.data1 _ _ s
          ∙ rw (i, d0, d1) refl;
      holds = h;
      same_ctrl = refl;
    }

control-ctrl : (v : ℕ) (s : Controller) → (fifo_control v s).ctrl ≡ s.ctrl
unfolding fifo_control
control-ctrl v s = ground arith

pub pop_rx-Runs :
    (s : Controller) (q : Queue)
    → Holds s q
    → Runs (Can.pop_rx base) s tt (record q { frames = drop 1 q.frames })
unfolding Can.pop_rx bus_write
pop_rx-Runs s q h = record {
  after = fifo_control 1 s;
  runs = refl;
  holds = fifo_control-Holds 1 s q h;
  same_ctrl = control-ctrl 1 s;
}

pub flush_rx-Runs :
    (s : Controller) (q : Queue)
    → Holds s q
    → Runs (Can.flush_rx base) s tt (record q { frames = [] })
unfolding Can.flush_rx bus_write
flush_rx-Runs s q h = record {
  after = fifo_control 2 s;
  runs = refl;
  holds = fifo_control-Holds 2 s q h;
  same_ctrl = control-ctrl 2 s;
}

pub rx_count-Runs :
    (s : Controller) (q : Queue) → Holds s q → Runs (Can.rx_count base) s (length q.frames) q
unfolding Can.rx_count
rx_count-Runs s q h = record {
  after = s;
  runs =
      ap (λ (n : ℕ). some (n, s)) {x = bit_and (bus_read p_rx_fifo s) 7} {y = length q.frames}
        (omega (arith, bit_and_mask 3 (bus_read p_rx_fifo s), (Holds-Shows s q h).counts, h.fits));
  holds = h;
  same_ctrl = refl;
}
