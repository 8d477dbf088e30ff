-- ===== src/Rtl/Can/Queue.antt =====
-- The receive FIFO of qar-core/rtl/can.v is a queue of four frames.
use qar_mvp.Prelude.{
  ℕ, suc, ◌+◌, ◌%◌, ◌≤◌, ◌<◌, ◌≡◌, refl, Bool, true, false, not, ◌&&◌, ◌==◌, if◌then◌else◌, ltb,
  List, [], ◌∷◌, ◌++◌, length, drop, arith, Bool-cases, inl, inr,
}
use qar_mvp.Rtl.Can.{
  Frame, Controller, has_bit, rx_entries, accepts, mailbox, set_slot, receive, send, flush, pop,
  clear_overflow, fifo_control, clear_irq, Port, p_ctrl, p_status, p_bittime, p_err_counter,
  p_irq_en, p_irq_status, p_filter_id, p_filter_mask, p_tx_id, p_tx_dlc, p_tx_data0, p_tx_data1,
  p_tx_cmd, p_rx_id, p_rx_dlc, p_rx_data0, p_rx_data1, p_rx_fifo, p_none, bus_write,
}
use qar_mvp.Rtl.Can.Slots.{Stored, Stored-set_slot, Stored-append, Stored-wrap, set_slot_same}

-- The frames that wait, the oldest first, and whether one was lost.
pub record Queue : Type 0 where
  pub frames : List Frame
  pub overflow : Bool

-- What a write does to the queue: a send command appends the mailbox of an enabled controller that
-- accepts it, or loses it when four frames wait; the control register of the FIFO removes frames.
abbrev pub queue_send : Controller → Queue → Queue
queue_send s q =
    if has_bit s.ctrl 0 && accepts s
    then (if ltb (length q.frames) 4
        then record q { frames = q.frames ++ (mailbox s ∷ []) }
        else record q { overflow = true })
    else q

abbrev pub queue_control : ℕ → Queue → Queue
queue_control v q = record {
  frames = if has_bit v 1 then [] else if has_bit v 0 then drop 1 q.frames else q.frames;
  overflow = if has_bit v 2 then false else q.overflow;
}

abbrev pub queue_write : Port → ℕ → Controller → Queue → Queue
queue_write p_tx_cmd v s q = queue_send s q
queue_write p_rx_fifo v s q = queue_control v q
queue_write _ v s q = q

-- The pending bit is only set while a frame waits.
abbrev pub Pends : Bool → List Frame → Type 0
Pends true [] = ⊥
Pends true (f ∷ fs) = Unit
Pends false fs = Unit

pub record Fifo (tail head : ℕ) (slots : ℕ → Frame) (pending overflow : Bool) (q : Queue)
    : Type 0 where
  pub below : tail < 8
  pub heads : head ≡ (tail + length q.frames) % 8
  pub fits : length q.frames ≤ 4
  pub stored : Stored slots tail q.frames
  pub pends : Pends pending q.frames
  pub lost : overflow ≡ q.overflow

-- The registers stand for the queue.
abbrev pub Holds : Controller → Queue → Type 0
Holds s q = Fifo s.rx_tail s.rx_head s.slots s.rx_pending s.rx_overflow q

pub entries_lem : (s : Controller) (q : Queue) → Holds s q → rx_entries s ≡ length q.frames
entries_lem s q h = omega (arith, h.below, h.heads, h.fits)

pub length-append_one : (f : Frame) (fs : List Frame) → length (fs ++ (f ∷ [])) ≡ length fs + 1
length-append_one f [] = refl
length-append_one f (g ∷ fs) = omega (arith, length-append_one f fs)

Pends-append_one : (b : Bool) (f : Frame) (fs : List Frame) → Pends b (fs ++ (f ∷ []))
Pends-append_one true f [] = tt
Pends-append_one true f (g ∷ fs) = tt
Pends-append_one false f fs = tt

receive-Holds :
    (s : Controller) (q : Queue)
    → Holds s q
    → Holds (receive s) (
        if ltb (length q.frames) 4
        then record q { frames = q.frames ++ (mailbox s ∷ []) }
        else record q { overflow = true })
unfolding receive
receive-Holds s q h = elim (Bool-cases (ltb (length q.frames) 4)) [
  | inl room ↦
      let slot = s.rx_head % 4 in
      let small : length q.frames < 4 = ground arith in
      let free : (s.rx_tail + length q.frames) % 4 ≡ slot = omega (arith, h.heads) in
      rw (entries_lem s q h, room)
        (record {
          below = h.below;
          heads = omega (arith, h.heads, length-append_one (mailbox s) q.frames);
          fits = omega (arith, small, length-append_one (mailbox s) q.frames);
          stored =
              Stored-append (set_slot slot (mailbox s) s.slots) s.rx_tail (mailbox s) q.frames
                (Stored-set_slot s.slots s.rx_tail slot (mailbox s) q.frames (omega arith)
                  (λ k lt e. omega (arith, free, small)) h.stored)
                (set_slot_same slot _ (mailbox s) s.slots free);
          pends = Pends-append_one true (mailbox s) q.frames;
          lost = h.lost;
        })
  | inr full ↦
      rw (entries_lem s q h, full)
        (record {
          below = h.below;
          heads = h.heads;
          fits = h.fits;
          stored = h.stored;
          pends = h.pends;
          lost = refl;
        })
]

pub send-Holds : (s : Controller) (q : Queue) → Holds s q → Holds (send s) (queue_send s q)
unfolding send
send-Holds s q h = elim (Bool-cases (has_bit s.ctrl 0)) [
  | inr off ↦ rw off h
  | inl on ↦ elim (Bool-cases (accepts s)) [
    | inr no_copy ↦ rw (on, no_copy) h
    | inl copy ↦ rw (on, copy) (receive-Holds s q h)
  ]
]

Pends-cons : (b : Bool) (f : Frame) (fs : List Frame) → Pends b (f ∷ fs)
Pends-cons true f fs = tt
Pends-cons false f fs = tt

Pends-pop :
    (entries : ℕ) (b : Bool) (fs : List Frame)
    → entries ≡ suc (length fs)
    → Pends (if entries == 1 then false else b) fs
Pends-pop entries b [] e = rw e tt
Pends-pop entries b (f ∷ fs) e = Pends-cons (if entries == 1 then false else b) f fs

flush-Holds : (s : Controller) (q : Queue) → Holds s q → Holds (flush s) (record q { frames = [] })
flush-Holds s q h = record {
  below = omega (arith, h.heads);
  heads = omega (arith, h.heads);
  fits = omega arith;
  stored = tt;
  pends = tt;
  lost = h.lost;
}

pop-Holds :
    (s : Controller) (f : Frame) (fs : List Frame) (overflow : Bool)
    → Holds s (record { frames = f ∷ fs; overflow = overflow })
    → Holds (pop s) (record { frames = fs; overflow = overflow })
pop-Holds s f fs overflow h = record {
  below = omega arith;
  heads = omega (arith, h.heads);
  fits = omega (arith, h.fits);
  stored = Stored-wrap s.slots (s.rx_tail + 1) ((s.rx_tail + 1) % 8) fs (omega arith) h.stored.1;
  pends =
      Pends-pop (rx_entries s) s.rx_pending fs
        (entries_lem s (record { frames = f ∷ fs; overflow = overflow }) h);
  lost = h.lost;
}

remove_one-Holds :
    (s : Controller) (q : Queue)
    → Holds s q
    → Holds (if not (rx_entries s == 0) then pop s else s) (record q { frames = drop 1 q.frames })
remove_one-Holds s q h = by_frames q.frames q.overflow h (entries_lem s q h)
  where
    by_frames :
        (fs : List Frame) (overflow : Bool)
        → Holds s (record { frames = fs; overflow = overflow })
        → rx_entries s ≡ length fs
        → Holds
            (if not (rx_entries s == 0) then pop s else s)
            (record { frames = drop 1 fs; overflow = overflow })
    by_frames [] overflow h e = rw e h
    by_frames (f ∷ fs) overflow h e =
        let some_left : (rx_entries s == 0) ≡ false = ground arith in
        rw some_left (pop-Holds s f fs overflow h)

pub fifo_control-Holds :
    (v : ℕ) (s : Controller) (q : Queue) → Holds s q → Holds (fifo_control v s) (queue_control v q)
unfolding fifo_control
fifo_control-Holds v s q h = by_bits (has_bit v 1) (has_bit v 0) (has_bit v 2)
  where
    cleared :
        (b : Bool) (t : Controller) (r : Queue)
        → Holds t r
        → Holds
            (if b then clear_overflow t else t)
            (record r { overflow = if b then false else r.overflow })
    cleared true t r g = record {
      below = g.below;
      heads = g.heads;
      fits = g.fits;
      stored = g.stored;
      pends = g.pends;
      lost = refl;
    }
    cleared false t r g = g

    by_bits :
        (flushes pops clears : Bool)
        → Holds
            (let moved =
                if flushes then flush s else if pops && not (rx_entries s == 0) then pop s else s in
              if clears then clear_overflow moved else moved)
            (record {
              frames = if flushes then [] else if pops then drop 1 q.frames else q.frames;
              overflow = if clears then false else q.overflow;
            })
    by_bits true pops clears =
        cleared clears (flush s) (record q { frames = [] }) (flush-Holds s q h)
    by_bits false true clears =
        cleared clears _ (record q { frames = drop 1 q.frames }) (remove_one-Holds s q h)
    by_bits false false clears = cleared clears s q h

pub clear_irq-Holds : (v : ℕ) (s : Controller) (q : Queue) → Holds s q → Holds (clear_irq v s) q
unfolding clear_irq
clear_irq-Holds v s q h = record {
  below = h.below;
  heads = h.heads;
  fits = h.fits;
  stored = h.stored;
  pends = by_bit (has_bit v 0) s.rx_pending q.frames h.pends;
  lost = h.lost;
}
  where
    by_bit : (b p : Bool) (fs : List Frame) → Pends p fs → Pends (if b then false else p) fs
    by_bit true p fs g = tt
    by_bit false p fs g = g

-- On registers that stand for a queue, every write does to them what it does to the queue.
pub bus_write-Holds :
    (p : Port) (v : ℕ) (s : Controller) (q : Queue)
    → Holds s q
    → Holds (bus_write p v s) (queue_write p v s q)
unfolding bus_write
bus_write-Holds p_ctrl v s q h = h
bus_write-Holds p_status v s q h = h
bus_write-Holds p_bittime v s q h = h
bus_write-Holds p_err_counter v s q h = h
bus_write-Holds p_irq_en v s q h = h
bus_write-Holds p_irq_status v s q h = clear_irq-Holds v s q h
bus_write-Holds p_filter_id v s q h = h
bus_write-Holds p_filter_mask v s q h = h
bus_write-Holds p_tx_id v s q h = h
bus_write-Holds p_tx_dlc v s q h = h
bus_write-Holds p_tx_data0 v s q h = h
bus_write-Holds p_tx_data1 v s q h = h
bus_write-Holds p_tx_cmd v s q h = send-Holds s q h
bus_write-Holds p_rx_id v s q h = h
bus_write-Holds p_rx_dlc v s q h = h
bus_write-Holds p_rx_data0 v s q h = h
bus_write-Holds p_rx_data1 v s q h = h
bus_write-Holds p_rx_fifo v s q h = fifo_control-Holds v s q h
bus_write-Holds p_none v s q h = h
