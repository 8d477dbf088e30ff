-- ===== src/Elf2qar/Image/Hex.antt =====
-- `image_write_hex`: the lines of the hex file are the little-endian words of the buffer.
use qar_mvp.Prelude.{
  ℕ, zero, suc, ◌+◌, ◌*◌, ◌^◌, ◌<◌, ◌≡◌, refl, sym, ap, ◌∙◌, true, some, List, [], ◌∷◌, ◌++◌,
  bit_or, bit_or_disjoint, u32, ◌<<<◌, Bytes, AreBytes, IsByte, length, length-append, get_elem?,
  get_elem?-append_right, load_words, append_assoc, arith,
}
use qar_mvp.Libc.Format.{format_08x, length-hex_digits}
use qar_mvp.Elf2qar.Image.{ImageT, word_at, hex_lines, text, image_write_hex}
use qar_mvp.Elf2qar.Image.Store.{IsValid}

-- One line for each word.
abbrev pub hex_text : List ℕ → Bytes
hex_text [] = []
hex_text (w ∷ ws) = format_08x w ++ (b'\n' ∷ hex_text ws)

length-hex_text : (ws : List ℕ) → length (hex_text ws) ≡ 9 * length ws
length-hex_text [] = refl
length-hex_text (w ∷ ws) =
    omega (arith, length-append (format_08x w) (b'\n' ∷ hex_text ws), eight, length-hex_text ws)
  where
    eight : length (format_08x w) ≡ 8
    eight = unfold format_08x in length-hex_digits 8 w

pub length-load_words : (n : ℕ) (bs : Bytes) → length bs ≡ 4 * n → length (load_words bs) ≡ n
unfolding load_words
length-load_words zero [] h = refl
length-load_words (suc n) (b0 ∷ b1 ∷ b2 ∷ b3 ∷ bs) h = ap suc (length-load_words n bs (omega arith))
length-load_words zero (b0 ∷ bs) h = absurd (omega arith)
length-load_words (suc n) [] h = absurd (omega arith)
length-load_words (suc n) (b0 ∷ []) h = absurd (omega arith)
length-load_words (suc n) (b0 ∷ b1 ∷ []) h = absurd (omega arith)
length-load_words (suc n) (b0 ∷ b1 ∷ b2 ∷ []) h = absurd (omega arith)

or_bytes :
    (b0 b1 b2 b3 : ℕ)
    → IsByte b0
    → IsByte b1
    → IsByte b2
    → IsByte b3
    → u32 (bit_or (bit_or (bit_or b0 (b1 <<< 8)) (b2 <<< 16)) (b3 <<< 24))
      ≡ b0 + b1 * 256 + b2 * 65536 + b3 * 16777216
or_bytes b0 b1 b2 b3 h0 h1 h2 h3 = rw first (omega arith)
  where
    first :
        bit_or (bit_or (bit_or b0 (b1 <<< 8)) (b2 <<< 16)) (b3 <<< 24)
        ≡ b3 * 2 ^ 24 + (b2 * 2 ^ 16 + (b1 * 2 ^ 8 + b0))
    first =
        rw
          (
            bit_or_disjoint 8 b1 b0 (omega arith),
            bit_or_disjoint 16 b2 (b1 * 2 ^ 8 + b0) (omega arith),
          )
          (bit_or_disjoint 24 b3 (b2 * 2 ^ 16 + (b1 * 2 ^ 8 + b0)) (omega arith))

word_at_four :
    (done : Bytes) (n b0 b1 b2 b3 : ℕ) (rest : Bytes)
    → length done ≡ n
    → n + 4 < 2 ^ 32
    → AreBytes (b0 ∷ b1 ∷ b2 ∷ b3 ∷ [])
    → word_at (done ++ (b0 ∷ b1 ∷ b2 ∷ b3 ∷ rest)) n
      ≡ some (b0 + b1 * 256 + b2 * 65536 + b3 * 16777216)
unfolding word_at
word_at_four done n b0 b1 b2 b3 rest e small h =
    rw
      (
        byte 0 n (omega arith),
        byte 1 (u32 (n + 1)) (omega arith),
        byte 2 (u32 (n + 2)) (omega arith),
        byte 3 (u32 (n + 3)) (omega arith),
      )
      (ap some (or_bytes b0 b1 b2 b3 h.0 h.1.0 h.1.1.0 h.1.1.1.0))
  where
    byte :
        (k i : ℕ)
        → n + k ≡ i
        → get_elem? (done ++ (b0 ∷ b1 ∷ b2 ∷ b3 ∷ rest)) i ≡ get_elem? (b0 ∷ b1 ∷ b2 ∷ b3 ∷ rest) k
    byte k i at =
        ap (get_elem? (done ++ (b0 ∷ b1 ∷ b2 ∷ b3 ∷ rest))) (sym at)
        ∙ get_elem?-append_right done _ n k e

-- Behind the bytes of `word` words, the loop prints the words of the rest.
hex_lines_lem :
    (left word : ℕ) (done rest : Bytes)
    → length done ≡ 4 * word
    → length rest ≡ 4 * left
    → 4 * (word + left) < 2 ^ 32
    → AreBytes rest
    → hex_lines (done ++ rest) left word ≡ some (hex_text (load_words rest))
unfolding hex_lines load_words
hex_lines_lem zero word done [] e l small h = refl
hex_lines_lem (suc left) word done (b0 ∷ b1 ∷ b2 ∷ b3 ∷ rest) e l small h =
    let following : hex_lines (done ++ (b0 ∷ b1 ∷ b2 ∷ b3 ∷ rest)) left (word + 1)
        ≡ some (hex_text (load_words rest)) =
      ap (λ (m : Bytes). hex_lines m left (word + 1))
        (sym (append_assoc done (b0 ∷ b1 ∷ b2 ∷ b3 ∷ []) rest))
      ∙ hex_lines_lem left (word + 1) (done ++ (b0 ∷ b1 ∷ b2 ∷ b3 ∷ [])) rest
          (omega (arith, length-append done (b0 ∷ b1 ∷ b2 ∷ b3 ∷ []))) (omega arith) (omega arith)
          h.1.1.1.1 in
    rw
      (
        index,
        word_at_four done (4 * word) b0 b1 b2 b3 rest e (omega arith)
            (h.0, (h.1.0, (h.1.1.0, (h.1.1.1.0, tt)))),
        hex_lines,
        following,
      )
      refl
  where
    index : u32 (word * 4) ≡ 4 * word
    index = omega arith
hex_lines_lem zero word done (b0 ∷ bs) e l small h = absurd (omega arith)
hex_lines_lem (suc left) word done [] e l small h = absurd (omega arith)
hex_lines_lem (suc left) word done (b0 ∷ []) e l small h = absurd (omega arith)
hex_lines_lem (suc left) word done (b0 ∷ b1 ∷ []) e l small h = absurd (omega arith)
hex_lines_lem (suc left) word done (b0 ∷ b1 ∷ b2 ∷ []) e l small h = absurd (omega arith)

-- For a valid image, every byte that is read lies in the buffer, and the file has nine characters
-- for each word: a line with the little-endian words of the buffer, in order.
pub image_write_hex_lem :
    (img : ImageT)
    → IsValid img
    → (image_write_hex true img ≡ text (hex_text (load_words img.buffer)))
      × (length (hex_text (load_words img.buffer)) ≡ 9 * img.size_words)
unfolding image_write_hex
image_write_hex_lem img v = (
  rw (hex_lines_lem img.size_words 0 [] img.buffer refl v.sized (omega (arith, v.below)) v.bytes)
      refl,
  omega (
    arith,
    length-hex_text (load_words img.buffer),
    length-load_words img.size_words img.buffer v.sized,
  ),
)
