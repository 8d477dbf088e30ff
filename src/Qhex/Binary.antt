-- ===== src/Qhex/Binary.antt =====
-- `write_binary` of devkit/tools/qhex/main.c: the words as little-endian bytes.
pub mod Laws
use qar_mvp.Prelude.{
  ℕ, zero, suc, ◌+◌, ◌-◌, ◌/◌, ◌%◌, ◌^◌, Bool, true, false, Option, none, some, List, [], ◌∷◌, ◌++◌,
  bit_and, u8, ◌>>>◌, Bytes, get_elem?,
}
use qar_mvp.Qhex.Buffer.{WordBuffer}

-- `bytes[4]` for a word.
unfoldable pub word_bytes : ℕ → Bytes
word_bytes w =
    u8 (bit_and w 0xFF)
    ∷ u8 (bit_and (w >>> 8) 0xFF)
    ∷ u8 (bit_and (w >>> 16) 0xFF)
    ∷ u8 (bit_and (w >>> 24) 0xFF)
    ∷ []

-- What became of the output file. `unwritten` is a read of a cell that was never written, which C
-- leaves undefined.
pub data Written : Type 0 where
  wrote : Bytes → Written
  failed : Bytes → Written
  unwritten : Written

-- The loop at index `i`, with `left` rounds to go, on what is in the file so far; `can_write i`
-- says whether the `fwrite` of word `i` takes all four bytes, and if it does not, the ones that it
-- took are not modelled.
unfoldable pub write_words : (ℕ → Bool) → List (Option ℕ) → ℕ → ℕ → Bytes → Written
write_words can_write words zero i out = wrote out
write_words can_write words (suc left) i out = elim (get_elem? words i) [
  | some (some w) ↦ elim (can_write i) [
    | true ↦ write_words can_write words left (i + 1) (out ++ word_bytes w)
    | false ↦ failed out
  ]
  | _ ↦ unwritten
]

-- `none` where the file cannot be opened.
unfoldable pub write_binary : Bool → (ℕ → Bool) → WordBuffer → Option Written
write_binary can_open can_write b = elim can_open [
  | true ↦ some (write_words can_write b.words b.count 0 [])
  | false ↦ none
]
