-- ===== src/Rtl/Can/Reads.antt =====
-- What the reads of qar-core/rtl/can.v show of its queue, in every state that it can reach.
use qar_mvp.Prelude.{ℕ, ◌+◌, ◌*◌, ◌≡◌, refl, ap, Bool, false, List, [], ◌∷◌, length, arith}
use qar_mvp.Rtl.Can.{
  Frame, Controller, reset, bit, Port, p_rx_id, p_rx_dlc, p_rx_data0, p_rx_data1, p_rx_fifo,
  bus_write, bus_read,
}
use qar_mvp.Rtl.Can.Queue.{Queue, queue_write, Holds, Pends, entries_lem, bus_write-Holds}

-- The four receive registers show the oldest frame.
abbrev pub ShowsOldest : Controller → List Frame → Type 0
ShowsOldest s [] = Unit
ShowsOldest s (f ∷ fs) =
    (bus_read p_rx_id s ≡ f.id)
    × (bus_read p_rx_dlc s ≡ f.dlc)
    × (bus_read p_rx_data0 s ≡ f.data0)
    × (bus_read p_rx_data1 s ≡ f.data1)

-- The number of frames is in the low three bits of the FIFO register, the overflow flag in bit 4.
pub record Shows (s : Controller) (q : Queue) : Type 0 where
  pub counts : bus_read p_rx_fifo s ≡ length q.frames + 16 * bit q.overflow
  pub oldest : ShowsOldest s q.frames
  pub pending : Pends s.rx_pending q.frames

pub Holds-Shows : (s : Controller) (q : Queue) → Holds s q → Shows s q
unfolding bus_read
Holds-Shows s q h = record {
  counts = omega (arith, entries_lem s q h, ap bit h.lost);
  oldest = by_frames q.frames q.overflow h;
  pending = h.pends;
}
  where
    by_frames :
        (fs : List Frame) (overflow : Bool)
        → Holds s (record { frames = fs; overflow = overflow })
        → ShowsOldest s fs
    by_frames [] overflow g = tt
    by_frames (f ∷ fs) overflow g =
        let at = g.stored.0 in
        (
          ap (λ (x : Frame). x.id) at,
          ap (λ (x : Frame). x.dlc) at,
          ap (λ (x : Frame). x.data0) at,
          ap (λ (x : Frame). x.data1) at,
        )

-- The states after a reset and any number of writes.
pub data Reached : Controller → Type 0 where
  start : (slots : ℕ → Frame) → Reached (reset slots)
  written : {s : Controller} (p : Port) (v : ℕ) → Reached s → Reached (bus_write p v s)

reset-Holds : (slots : ℕ → Frame) → Holds (reset slots) (record { frames = []; overflow = false })
reset-Holds slots = record {
  below = omega arith;
  heads = refl;
  fits = omega arith;
  stored = tt;
  pends = tt;
  lost = refl;
}

-- After a reset and any writes, the registers stand for a queue of at most four frames, and what can
-- be read is its length, its overflow flag and its oldest frame.
pub Reached-Shows : {s : Controller} → Reached s → (q : Queue) × Holds s q × Shows s q
Reached-Shows {s} (start slots) =
    (_, reset-Holds slots, Holds-Shows (reset slots) _ (reset-Holds slots))
Reached-Shows (written {s} p v r) =
    let (q, h, shown) = Reached-Shows r in
    let g = bus_write-Holds p v s q h in
    (queue_write p v s q, g, Holds-Shows (bus_write p v s) (queue_write p v s q) g)
