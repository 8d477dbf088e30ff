-- ===== src/Hal/Windows/Defs.antt =====
-- The register windows, and what it is for a driver to stay within one.
use qar_mvp.Prelude.{ℕ, zero, suc, ◌+◌, ◌%◌, ◌^◌, ◌≤◌, ◌<◌, bit_and, bit_or, bit_or-lt, ◌≡◌, IsU32}
use qar_mvp.Mmio.{Io, ret, Accesses, wait_for, ◌>>=◌}

-- A word-aligned address of the register window of `size` bytes at `base`.
abbrev pub InWindow : ℕ → ℕ → ℕ → Type 0
InWindow base size a = (base ≤ a) × (a < base + size) × (a % 4 ≡ 0)

-- A window that ends within the address space.
abbrev pub IsBase : ℕ → ℕ → Type 0
IsBase base size = (base + size ≤ 2 ^ 32) × (base % 4 ≡ 0)

-- The driver accesses the window alone, and writes 32-bit values, whatever the hardware answers.
abbrev pub Stays : {A : Type 0} → ℕ → ℕ → Io A → Type 0
Stays base size = Accesses (InWindow base size)

-- A call whose result is not looked at.
abbrev pub discard : {A : Type 0} → Io A → Io (Unit {0})
discard m = m >>= λ _. ret tt

pub bit_or-IsU32 : (a b : ℕ) → IsU32 a → IsU32 b → IsU32 (bit_or a b)
bit_or-IsU32 a b = bit_or-lt 32 a b

-- A polling loop reads one register.
pub wait_for-Accesses :
    (P : ℕ → Type 0) (budget a mask : ℕ) → P a → Accesses P (wait_for budget a mask)
unfolding wait_for
wait_for-Accesses P zero a mask h = tt
wait_for-Accesses P (suc budget) a mask h = (
  h,
  λ v u. answer (wait_for budget a mask) (wait_for-Accesses P budget a mask h) (bit_and v mask),
)
  where
    answer :
        (again : Io (Unit {0}))
        → Accesses P again
        → (x : ℕ) → Accesses P (elim x as (λ _. Io (Unit {0})) [ zero ↦ again | suc _ ↦ ret tt ])
    answer again ih zero = ih
    answer again ih (suc x) = tt
