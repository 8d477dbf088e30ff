-- ===== src/Rtl/Can/RoundTrip.antt =====
-- Frames through devkit/hal/can.h, the controller of qar-core/rtl/can.v and back.
use mathlib.Core.List.{map}
use qar_mvp.Prelude.{
  ℕ, zero, suc, ◌+◌, ◌≤◌, refl, Bool, true, List, [], ◌∷◌, ◌++◌, append_assoc, append-nil, length,
  arith,
}
use qar_mvp.Mmio.{Io, ret, ◌>>=◌, ◌>>◌}
use qar_mvp.Hal.Can
use qar_mvp.Rtl.Can.{Frame, Controller}
use qar_mvp.Rtl.Can.Queue.{Queue, Holds, length-append_one}
use qar_mvp.Rtl.Can.Driver.{
  base, Copies, Runs, Runs->>=, sent, payload_of, send_word-Runs, read_payload-Runs, pop_rx-Runs,
}

-- A frame after the other is sent.
abbrev pub send_all : List Frame → Io (Unit {0})
send_all [] = ret tt
send_all (f ∷ fs) = Can.send_word base f.id f.data0 f.data1 f.dlc >> send_all fs

abbrev pub everything : Can.Wanted
everything = record { id = true; data0 = true; data1 = true }

-- A number of frames is read and popped.
abbrev pub receive_all : ℕ → Io (List Can.Payload)
receive_all zero = ret []
receive_all (suc n) = Can.read_payload base everything >>= λ p.
    Can.pop_rx base >> (receive_all n >>= λ ps. ret (p ∷ ps))

pub send_all-Runs :
    (fs : List Frame) (s : Controller) (q : Queue)
    → Holds s q
    → Copies s.ctrl
    → length q.frames + length fs ≤ 4
    → Runs (send_all fs) s tt (record q { frames = q.frames ++ fs })
send_all-Runs [] s q h c room = record {
  after = s;
  runs = refl;
  holds = rw append-nil h;
  same_ctrl = refl;
}
send_all-Runs (f ∷ fs) s q h c room =
    let first = send_word-Runs f s q h c (omega arith) in
    let rest =
      send_all-Runs fs first.after (sent f q) first.holds (rw first.same_ctrl c)
        (omega (arith, length-append_one f q.frames)) in
    Runs->>= (Can.send_word base f.id f.data0 f.data1 f.dlc) (λ u. send_all fs) s first
      (rw append_assoc at rest)

pub receive_all-Runs :
    (fs : List Frame) (s : Controller) (q : Queue)
    → Holds s (record q { frames = fs })
    → Runs (receive_all (length fs)) s (map (payload_of everything) fs) (record q { frames = [] })
receive_all-Runs [] s q h = record { after = s; runs = refl; holds = h; same_ctrl = refl }
receive_all-Runs (f ∷ fs) s q h =
    let first = read_payload-Runs everything f fs q.overflow s h in
    let second = pop_rx-Runs first.after (record q { frames = f ∷ fs }) first.holds in
    let rest = receive_all-Runs fs second.after q second.holds in
    let p = payload_of everything f in
    Runs->>= (Can.read_payload base everything)
      (λ o. Can.pop_rx base >> (receive_all (length fs) >>= λ ps. ret (o ∷ ps))) s first
      (Runs->>= (Can.pop_rx base) (λ u. receive_all (length fs) >>= λ ps. ret (p ∷ ps)) first.after
        second
        (Runs->>= (receive_all (length fs)) (λ ps. ret (p ∷ ps)) second.after rest
          (record { after = rest.after; runs = refl; holds = rest.holds; same_ctrl = refl })))

-- On an enabled controller in loopback with its filter bypassed and its FIFO empty: up to four frames
-- that are sent one after the other are read and popped in the same order, with their identifiers and
-- data, and the FIFO is empty again.
pub receive_all-send_all :
    (fs : List Frame) (s : Controller) (overflow : Bool)
    → Holds s (record { frames = []; overflow = overflow })
    → Copies s.ctrl
    → length fs ≤ 4
    → Runs
        (send_all fs >> receive_all (length fs))
        s
        (map (payload_of everything) fs)
        (record { frames = []; overflow = overflow })
receive_all-send_all fs s overflow h c room =
    let sends =
      send_all-Runs fs s (record { frames = []; overflow = overflow }) h c (omega arith) in
    Runs->>= (send_all fs) (λ u. receive_all (length fs)) s sends
      (receive_all-Runs fs sends.after (record { frames = fs; overflow = overflow }) sends.holds)
