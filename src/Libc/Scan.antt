-- ===== src/Libc/Scan.antt =====
-- `sscanf(text, "%x", &value)` and `strtoul(text, NULL, 0)`, on the characters before the NUL.
pub mod Laws
use qar_mvp.Prelude.{
  ℕ, zero, suc, ◌+◌, ◌-◌, ◌*◌, ◌%◌, ◌^◌, min, Bool, true, false, ◌&&◌, ◌||◌, Option, none, some, [],
  ◌∷◌, List, Bytes, ltb, leb, ◌==◌, if◌then◌else◌, u32, u64,
}

-- `isspace` in the C locale.
unfoldable pub is_space : ℕ → Bool
is_space c = c == b' ' || (leb 9 c && leb c 13)

unfoldable pub skip_space : Bytes → Bytes
unfolding is_space
skip_space [] = []
skip_space (c ∷ t) = if is_space c then skip_space t else c ∷ t

-- The value of a digit or letter; a letter beyond `z` has none.
unfoldable pub digit_value : ℕ → Option ℕ
digit_value c =
    if leb b'0' c && leb c b'9'
    then some (c - b'0')
    else if leb b'a' c && leb c b'z'
    then some (c - b'a' + 10)
    else if leb b'A' c && leb c b'Z'
    then some (c - b'A' + 10)
    else none

-- The value of a digit in a base.
unfoldable pub digit_in : ℕ → ℕ → Option ℕ
unfolding digit_value
digit_in base c = elim (digit_value c) [
  | none ↦ none
  | some d ↦ if ltb d base then some d else none
]

-- The values of the digits that the text begins with.
unfoldable pub leading_digits : ℕ → Bytes → List ℕ
unfolding digit_in
leading_digits base [] = []
leading_digits base (c ∷ t) =
    let rest = leading_digits base t in elim (digit_in base c) [ none ↦ [] | some d ↦ d ∷ rest ]

unfoldable pub number_from : ℕ → ℕ → List ℕ → ℕ
number_from base acc [] = acc
number_from base acc (d ∷ ds) = number_from base (acc * base + d) ds

-- A value that `unsigned long` does not hold gives its largest one, whatever the sign; a minus sign
-- negates any other value modulo 2 ^ 64.
unfoldable pub to_ulong : Bool → ℕ → ℕ
to_ulong false n = min n (2 ^ 64 - 1)
to_ulong true n = if ltb n (2 ^ 64) then u64 (2 ^ 64 - n) else 2 ^ 64 - 1

-- An optional sign: is it a minus, and what follows.
unfoldable pub take_sign : Bytes → Bool × Bytes
take_sign [] = (false, [])
take_sign (c ∷ t) =
    if c == b'-' then (true, t) else if c == b'+' then (false, t) else (false, c ∷ t)

abbrev is_x : ℕ → Bool
is_x c = c == b'x' || c == b'X'

-- `%x` lets the digits have the prefix `0x`.
unfoldable pub skip_0x : Bytes → Bytes
skip_0x (c ∷ d ∷ t) = if c == b'0' && is_x d then t else c ∷ d ∷ t
skip_0x t = t

-- `none` where no digit is found, which is a matching failure.
unfoldable pub hex_number : Bool → List ℕ → Option ℕ
unfolding number_from to_ulong
hex_number minus [] = none
hex_number minus (d ∷ ds) = some (u32 (to_ulong minus (number_from 16 0 (d ∷ ds))))

-- The value stored by `%x`; `none` where `sscanf` does not return 1.
unfoldable pub scan_hex : Bytes → Option ℕ
scan_hex text =
    let (minus, t) = take_sign (skip_space text) in hex_number minus (leading_digits 16 (skip_0x t))

-- Base 0 looks at the prefix: `0x` before a hexadecimal digit, or `0`.
unfoldable pub auto_number : Bytes → ℕ
unfolding leading_digits number_from
auto_number [] = 0
auto_number (c ∷ []) = number_from 10 0 (leading_digits 10 (c ∷ []))
auto_number (c ∷ d ∷ t) =
    if c == b'0' && is_x d
    then number_from 16 0 (leading_digits 16 t)
    else if c == b'0'
    then number_from 8 0 (leading_digits 8 (d ∷ t))
    else number_from 10 0 (leading_digits 10 (c ∷ d ∷ t))

unfoldable pub strtoul : Bytes → ℕ
strtoul text = let (minus, t) = take_sign (skip_space text) in to_ulong minus (auto_number t)
