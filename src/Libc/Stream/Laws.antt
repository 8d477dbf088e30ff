-- ===== src/Libc/Stream/Laws.antt =====
-- `fread` of a whole object: the bytes at the position, or a short read.
use qar_mvp.Prelude.{
  ℕ, ◌+◌, ◌-◌, ◌≤◌, ◌<◌, ◌≡◌, ◌≢◌, ◌⊎◌, min, inl, inr, refl, none, some, Bytes, AreBytes, IsByte,
  All-take, All-drop, length, take, drop, length-take, length-drop, ◌==◌, Bool-cases, arith,
}
use qar_mvp.Libc.Stream.{File, fread, fread_object}

-- The bytes that a read of `n` of them at the position takes.
abbrev pub taken : ℕ → File → Bytes
taken n f = take n (drop f.position f.content)

-- What the reader is left with.
abbrev pub behind : ℕ → File → File
behind n f = record f { position = f.position + n }

-- A read of `n` bytes succeeds exactly when they are there.
pub fread_object-cases :
    (n : ℕ) (f : File)
    → 0 < n
    → ((f.position + n ≤ length f.content)
        × (fread_object n f ≡ some (taken n f, behind n f))
        × (length (taken n f) ≡ n))
      ⊎ ((length f.content < f.position + n) × (fread_object n f ≡ none))
unfolding fread_object fread
fread_object-cases n f wide = elim (Bool-cases (length (taken n f) == n)) [
  | inl e ↦
      let whole : length (taken n f) ≡ n = ground arith in
      inl (omega (arith, measured), rw (e, whole) refl, whole)
  | inr e ↦
      let short : length (taken n f) ≢ n = ground arith in
      inr (ground (arith, measured, short), rw e refl)
]
  where
    measured : length (taken n f) ≡ min n (length f.content - f.position)
    measured = rw (length-take, length-drop) refl

pub taken-AreBytes : (n : ℕ) (f : File) → AreBytes f.content → AreBytes (taken n f)
taken-AreBytes n f h = All-take IsByte n _ (All-drop IsByte f.position f.content h)
