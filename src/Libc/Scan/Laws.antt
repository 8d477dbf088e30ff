-- ===== src/Libc/Scan/Laws.antt =====
-- `%x` reads back what `%08x` printed.
use mathlib.Core.List.{map, map-append}
use qar_mvp.Prelude.{
  ℕ, zero, suc, ◌+◌, ◌*◌, ◌/◌, ◌%◌, ◌^◌, ◌<◌, false, ◌≡◌, refl, sym, ap, ◌∙◌, some, [], ◌∷◌, ◌++◌,
  List, Bytes, length, All, All-append, arith, IsU32, append-nil,
}
use native.Mathlib.Nat.{pow-suc}
use qar_mvp.Libc.Format.{hex_digit, hex_digits, format_08x}
use qar_mvp.Libc.Scan.{
  skip_space, digit_in, leading_digits, number_from, take_sign, skip_0x, hex_number, scan_hex,
}

-- The values of the lowest `n` digits, the highest first.
abbrev nibbles : ℕ → ℕ → List ℕ
nibbles zero v = []
nibbles (suc n) v = nibbles n (v / 16) ++ (v % 16 ∷ [])

abbrev AreNibbles : List ℕ → Type 0
AreNibbles = All (λ d. d < 16)

nibbles-AreNibbles : (n v : ℕ) → AreNibbles (nibbles n v)
nibbles-AreNibbles zero v = tt
nibbles-AreNibbles (suc n) v =
    All-append (λ d. d < 16) (nibbles n (v / 16)) (v % 16 ∷ []) (nibbles-AreNibbles n (v / 16))
      (omega arith, tt)

hex_digits-nibbles : (n v : ℕ) → hex_digits n v ≡ map hex_digit (nibbles n v)
unfolding hex_digits
hex_digits-nibbles zero v = refl
hex_digits-nibbles (suc n) v =
    rw (hex_digits-nibbles n (v / 16)) (sym (map-append hex_digit (nibbles n (v / 16)) _))

number_from-append :
    (acc d : ℕ) (ds : List ℕ) → number_from 16 acc (ds ++ (d ∷ [])) ≡ number_from 16 acc ds * 16 + d
unfolding number_from
number_from-append acc d [] = refl
number_from-append acc d (e ∷ ds) = number_from-append (acc * 16 + e) d ds

number_from-nibbles : (n v : ℕ) → v < 16 ^ n → number_from 16 0 (nibbles n v) ≡ v
number_from-nibbles zero v h = unfold number_from in omega arith
number_from-nibbles (suc n) v h =
    number_from-append 0 (v % 16) (nibbles n (v / 16))
    ∙ omega (arith, number_from-nibbles n (v / 16) (omega (arith, pow-suc 16 n)))

digit_in-hex_digit : (d : ℕ) → d < 16 → digit_in 16 (hex_digit d) ≡ some d
unfolding digit_in hex_digit
digit_in-hex_digit d h = ground arith

leading_digits-hex :
    (ds : List ℕ) (rest : Bytes)
    → AreNibbles ds
    → leading_digits 16 (map hex_digit ds ++ rest) ≡ ds ++ leading_digits 16 rest
unfolding leading_digits
leading_digits-hex [] rest h = refl
leading_digits-hex (d ∷ ds) rest h =
    ground (arith, digit_in-hex_digit d h.0, leading_digits-hex ds rest h.1)

-- Digits are no blanks, no signs and no `x`.
starts_plain :
    (d e : ℕ) (t : Bytes)
    → d < 16
    → e < 16
    → let text = hex_digit d ∷ hex_digit e ∷ t in
      (skip_space text ≡ text) × (take_sign text ≡ (false, text)) × (skip_0x text ≡ text)
unfolding skip_space take_sign skip_0x hex_digit
starts_plain d e t hd he = (ground arith, ground arith, ground arith)

newline_ends : leading_digits 16 (b'\n' ∷ []) ≡ []
unfolding leading_digits
newline_ends = refl

scan_hex-digits :
    (d e : ℕ) (ds : List ℕ)
    → AreNibbles (d ∷ e ∷ ds)
    → scan_hex (map hex_digit (d ∷ e ∷ ds) ++ (b'\n' ∷ [])) ≡ hex_number false (d ∷ e ∷ ds)
unfolding scan_hex
scan_hex-digits d e ds h =
    let plain = starts_plain d e (map hex_digit ds ++ (b'\n' ∷ [])) h.0 h.1.0 in
    rw (plain.0, plain.1, plain.2, leading_digits-hex (d ∷ e ∷ ds) (b'\n' ∷ []) h, newline_ends)
      (ap (hex_number false) (append-nil (d ∷ e ∷ ds)))

hex_number-nibbles :
    (ds : List ℕ) (v : ℕ)
    → 0 < length ds
    → number_from 16 0 ds ≡ v
    → IsU32 v
    → hex_number false ds ≡ some v
hex_number-nibbles [] v long e h = absurd (omega arith)
hex_number-nibbles (d ∷ ds) v long e h = unfold hex_number in rw e (ap some (omega arith))

-- Every 32-bit word that is printed by `%08x` on a line of its own is read back by `%x`.
pub scan_hex-format_08x : (v : ℕ) → IsU32 v → scan_hex (format_08x v ++ (b'\n' ∷ [])) ≡ some v
scan_hex-format_08x v h =
    rw (whole, hex_digits-nibbles 8 v)
      (scan_hex-digits (v / 16 / 16 / 16 / 16 / 16 / 16 / 16 % 16)
          (v / 16 / 16 / 16 / 16 / 16 / 16 % 16) _ (nibbles-AreNibbles 8 v)
        ∙ hex_number-nibbles (nibbles 8 v) v (omega arith) (number_from-nibbles 8 v (omega arith))
            h)
  where
    whole : format_08x v ≡ hex_digits 8 v
    whole = unfold format_08x in refl
