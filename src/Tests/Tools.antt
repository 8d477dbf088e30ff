-- ===== src/Tests/Tools.antt =====
-- Runs of the two tools, and instances of the theorems on them.
use qar_mvp.Prelude.{
  ℕ, ◌*◌, ◌^◌, ◌<◌, ◌≡◌, ◌⊎◌, refl, arith, Bool, true, none, some, [], ◌∷◌, Bytes, length, ltb,
  load_words, replicate,
}
use mathlib.Core.List.{map}
use qar_mvp.Qhex.Buffer.{WordBuffer, empty_buffer}
use qar_mvp.Qhex.Buffer.Laws.{Represents, empty-Represents, Appends, append_word-Appends}
use qar_mvp.Qhex.Reader.{out_of_memory, read_line, read_hex}
use qar_mvp.Qhex.Buffer.Growth.{Grants, Refuses}
use qar_mvp.Qhex.Reader.Laws.{Meets, content, split, read_hex-Meets}
use qar_mvp.Qhex.Reader.{Scanned, read_all}
use qar_mvp.Pipeline.{read_hex-image_write_hex}
use qar_mvp.Qhex.Binary.{write_words, wrote}
use qar_mvp.Qhex.Binary.Laws.{outcome, write_words_lem, write_words-image_bytes}
use qar_mvp.Elf2qar.Image.{ImageT, image_init, image_store, image_write_hex, text}
use qar_mvp.Elf2qar.Image.Store.{
  IsValid, Stores, image_init-IsValid, image_store_lem, image_store_overrun,
}
use qar_mvp.Elf2qar.Image.Hex.{hex_text, image_write_hex_lem}

-- An allocator that grants less than 2 ^ 40 bytes.
abbrev pub grants : ℕ → Bool
grants n = ltb n 1099511627776

pub grants_bound : (n : ℕ) → grants n ≡ true → n < 2 ^ 63
grants_bound n h = ground arith

-- Two words, 42 and 0x10, with a blank line and a comment.
abbrev pub hex_lines_text : Bytes
hex_lines_text =
    b'2' ∷ b'a' ∷ b'\n' ∷ b' ' ∷ b'\n' ∷ b' ' ∷ b'0' ∷ b'x' ∷ b'1' ∷ b'0' ∷ b'#' ∷ b'!' ∷ b'\n' ∷ []

read_hex_example :
    Meets grants [] 0
      (read_hex grants hex_lines_text)
      (content 0 (map read_line (split 255 hex_lines_text)))
read_hex_example = read_hex-Meets grants hex_lines_text grants_bound

append_word_example : Appends grants empty_buffer [] 42
append_word_example = append_word-Appends grants empty_buffer [] 42 grants_bound empty-Represents

-- An array of two words with room for two more.
abbrev two_words : WordBuffer
two_words = record { words = some 42 ∷ some 0x10203040 ∷ none ∷ none ∷ []; count = 2; capacity = 4 }

two_words-Represents : Represents two_words (42 ∷ 0x10203040 ∷ [])
two_words-Represents = record {
  spare = none ∷ none ∷ [];
  cells = refl;
  counted = refl;
  sized = refl;
  small = omega arith;
}

write_words_example :
    write_words (λ i. ltb i 1) two_words.words 2 0 []
    ≡ outcome (λ i. ltb i 1) 0 (42 ∷ 0x10203040 ∷ []) []
write_words_example =
    write_words_lem (λ i. ltb i 1) two_words (42 ∷ 0x10203040 ∷ []) two_words-Represents

image_bytes_example :
    (image : Bytes) × (write_words (λ i. true) two_words.words two_words.count 0 [] ≡ wrote image)
    × (length image ≡ 4 * two_words.count)
    × (load_words image ≡ 42 ∷ 0x10203040 ∷ [])
image_bytes_example =
    write_words-image_bytes (λ i. true) two_words (42 ∷ 0x10203040 ∷ []) two_words-Represents
      (omega arith) (λ k. refl)

-- An image of two words.
abbrev pub small_image : ImageT
small_image = record {
  base_addr = 0;
  size_words = 2;
  addr_mask = 7;
  buffer = 1 ∷ 2 ∷ 3 ∷ 4 ∷ 5 ∷ 6 ∷ 7 ∷ 8 ∷ [];
}

pub small_image-IsValid : IsValid small_image
small_image-IsValid = record { sized = refl; bytes = omega arith; below = omega arith }

image_init_example :
    (image_init grants 0 64 ≡ none)
    ⊎ ((img : ImageT) × (image_init grants 0 64 ≡ some img)
        × IsValid img
        × (img.size_words ≡ 64)
        × (img.base_addr ≡ 0)
        × (img.buffer ≡ replicate (4 * 64) 0))
image_init_example = image_init-IsValid grants 0 64 (omega arith)

image_store_example :
    (img' : ImageT) × (image_store small_image 3 (9 ∷ 10 ∷ []) 2 ≡ some img')
    × Stores small_image img' 3 (9 ∷ 10 ∷ [])
image_store_example =
    image_store_lem small_image 3 (9 ∷ 10 ∷ []) small_image-IsValid (omega arith) (omega arith)

-- Four bytes from 0xFFFFFFFE on end at address 2.
overrun_example : image_store small_image 0xFFFFFFFE (1 ∷ 2 ∷ 3 ∷ 4 ∷ []) 4 ≡ none
overrun_example =
    image_store_overrun small_image 0xFFFFFFFE (1 ∷ 2 ∷ 3 ∷ 4 ∷ []) small_image-IsValid
      (omega arith) (omega arith) (omega arith)

write_hex_example :
    (image_write_hex true small_image ≡ text (hex_text (0x04030201 ∷ 0x08070605 ∷ [])))
    × (length (hex_text (0x04030201 ∷ 0x08070605 ∷ [])) ≡ 9 * 2)
write_hex_example = unfold load_words in image_write_hex_lem small_image small_image-IsValid

pipeline_example :
    (file : Bytes) × (image_write_hex true small_image ≡ text file)
    × (((s : Scanned) × (read_hex grants file ≡ read_all s)
          × (write_words (λ i. true) s.buf.words s.buf.count 0 []
              ≡ wrote (1 ∷ 2 ∷ 3 ∷ 4 ∷ 5 ∷ 6 ∷ 7 ∷ 8 ∷ []))
          × Grants grants 2)
        ⊎ ((read_hex grants file ≡ out_of_memory) × Refuses grants 2))
pipeline_example = read_hex-image_write_hex grants small_image grants_bound small_image-IsValid
