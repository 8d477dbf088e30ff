-- ===== src/Prelude/Words.antt =====
-- The fixed widths of C: wrap-around, complements, shifts, and words as little-endian bytes.
use Prim.Native.Nat.{ℕ, ◌+◌, ◌-◌, ◌*◌, ◌/◌, ◌%◌, ◌^◌, ◌<◌}
use mathlib.Core.List.{List, [], ◌∷◌}
use qar_mvp.Prelude.Lists.{All}

abbrev pub u8 : ℕ → ℕ
u8 n = n % 2 ^ 8

abbrev pub u16 : ℕ → ℕ
u16 n = n % 2 ^ 16

abbrev pub u32 : ℕ → ℕ
u32 n = n % 2 ^ 32

abbrev pub u64 : ℕ → ℕ
u64 n = n % 2 ^ 64

-- `~mask` on a `uint32_t`.
abbrev pub complement32 : ℕ → ℕ
complement32 n = 2 ^ 32 - 1 - n

infixl 75 ◌<<<◌ ◌>>>◌
abbrev pub ◌<<<◌ : ℕ → ℕ → ℕ
x <<< k = x * 2 ^ k

abbrev pub ◌>>>◌ : ℕ → ℕ → ℕ
x >>> k = x / 2 ^ k

abbrev pub IsByte : ℕ → Type 0
IsByte b = b < 256

abbrev pub IsU32 : ℕ → Type 0
IsU32 n = n < 2 ^ 32

-- A byte string: file contents, text, or memory.
abbrev pub Bytes : Type 0
Bytes = List ℕ

abbrev pub AreBytes : Bytes → Type 0
AreBytes = All IsByte

-- What a loader reads from a memory image: a word from each four bytes, the lowest first.
unfoldable pub load_words : Bytes → List ℕ
load_words (b0 ∷ b1 ∷ b2 ∷ b3 ∷ rest) =
    (b0 + b1 * 256 + b2 * 65536 + b3 * 16777216) ∷ load_words rest
load_words _ = []
