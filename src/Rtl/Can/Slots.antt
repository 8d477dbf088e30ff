-- ===== src/Rtl/Can/Slots.antt =====
-- The slots of the receive FIFO of qar-core/rtl/can.v.
use qar_mvp.Prelude.{
  ℕ, ◌+◌, ◌%◌, ◌<◌, ◌≡◌, ◌≢◌, refl, sym, ap, ◌∙◌, ==_iff, List, [], ◌∷◌, ◌++◌, length, arith,
}
use qar_mvp.Rtl.Can.{Frame, set_slot}

-- The slots from position `t` on hold the frames.
abbrev pub Stored : (ℕ → Frame) → ℕ → List Frame → Type 0
Stored slots t [] = Unit
Stored slots t (f ∷ fs) = (slots (t % 4) ≡ f) × Stored slots (t + 1) fs

-- Nothing but the frames' own slots matters.
pub Stored-set_slot :
    (slots : ℕ → Frame) (t i : ℕ) (f : Frame) (fs : List Frame)
    → i < 4
    → ((k : ℕ) → k < length fs → (t + k) % 4 ≢ i)
    → Stored slots t fs
    → Stored (set_slot i f slots) t fs
Stored-set_slot slots t i f [] below apart h = tt
Stored-set_slot slots t i f (g ∷ fs) below apart (at, h) = (
  ground (arith, at, ==_iff (t % 4) i, apart 0),
  Stored-set_slot slots (t + 1) i f fs below (λ k lt e. apart (k + 1) (omega arith) (omega arith))
      h,
)

pub Stored-append :
    (slots : ℕ → Frame) (t : ℕ) (f : Frame) (fs : List Frame)
    → Stored slots t fs
    → slots ((t + length fs) % 4) ≡ f
    → Stored slots t (fs ++ (f ∷ []))
Stored-append slots t f [] h last = (ap slots (omega arith) ∙ last, tt)
Stored-append slots t f (g ∷ fs) (at, h) last =
    (at, Stored-append slots (t + 1) f fs h (ap slots (omega arith) ∙ last))

pub Stored-wrap :
    (slots : ℕ → Frame) (t u : ℕ) (fs : List Frame)
    → t % 4 ≡ u % 4
    → Stored slots t fs
    → Stored slots u fs
Stored-wrap slots t u [] e h = tt
Stored-wrap slots t u (f ∷ fs) e (at, h) =
    (ap slots (sym e) ∙ at, Stored-wrap slots (t + 1) (u + 1) fs (omega arith) h)

pub set_slot_same : (i j : ℕ) (f : Frame) (slots : ℕ → Frame) → j ≡ i → set_slot i f slots j ≡ f
set_slot_same i j f slots e = rw ((==_iff j i).1 e) refl
