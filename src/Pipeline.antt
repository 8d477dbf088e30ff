-- ===== src/Pipeline.antt =====
-- From devkit/tools/elf2qar to devkit/tools/qhex: the hex file of an image, read back.
pub mod Whole
use mathlib.Core.List.{map}
use qar_mvp.Prelude.{
  ℕ, zero, suc, ◌+◌, ◌*◌, ◌/◌, ◌%◌, ◌^◌, ◌≤◌, ◌<◌, ◌≡◌, refl, ap, ◌∙◌, Bool, true, false, some,
  List, [], ◌∷◌, ◌++◌, ◌==◌, Bytes, AreBytes, IsU32, All, All-append, length, load_words, arith,
  ◌⊎◌, inl, inr,
}
use qar_mvp.Libc.Format.{hex_digit, hex_digits, format_08x, length-hex_digits}
use qar_mvp.Libc.Scan.{scan_hex}
use qar_mvp.Libc.Scan.Laws.{scan_hex-format_08x}
use qar_mvp.Libc.Stream.{c_string, cut_at}
use qar_mvp.Qhex.Reader.{
  word, read_line, read_trimmed, skip_blanks, read_hex, Scanned, Outcome, read_all, invalid_word,
  out_of_memory, stuck,
}
use qar_mvp.Qhex.Buffer.Laws.{Represents}
use qar_mvp.Qhex.Buffer.Growth.{Grants, Refuses}
use qar_mvp.Qhex.Binary.{write_words, wrote}
use qar_mvp.Qhex.Binary.Laws.{word_bytes_lem, image_bytes, write_words_lem, outcome-wrote}
use qar_mvp.Qhex.Reader.Laws.{split, content, words, Meets, read_hex-Meets}
use qar_mvp.Elf2qar.Image.{ImageT, text, image_write_hex}
use qar_mvp.Elf2qar.Image.Store.{IsValid}
use qar_mvp.Elf2qar.Image.Hex.{hex_text, length-load_words, image_write_hex_lem}

-- A character from `0` on: no NUL, newline, blank, tab or `#`.
abbrev IsPlain : ℕ → Type 0
IsPlain c = 48 ≤ c

hex_digit-IsPlain : (d : ℕ) → IsPlain (hex_digit d)
unfolding hex_digit
hex_digit-IsPlain d = ground arith

hex_digits-IsPlain : (n v : ℕ) → All IsPlain (hex_digits n v)
unfolding hex_digits
hex_digits-IsPlain zero v = tt
hex_digits-IsPlain (suc n) v =
    All-append IsPlain (hex_digits n (v / 16)) _ (hex_digits-IsPlain n (v / 16))
      (hex_digit-IsPlain (v % 16), tt)

-- A line of plain characters is one piece, whatever follows it.
split-line :
    (room : ℕ) (l rest : Bytes)
    → All IsPlain l
    → length l + 1 < room
    → split room (l ++ (b'\n' ∷ rest)) ≡ (l ++ (b'\n' ∷ [])) ∷ split 255 rest
unfolding split
split-line room [] rest h room_left = refl
split-line zero (c ∷ l) rest h room_left = absurd (omega arith)
split-line (suc zero) (c ∷ l) rest h room_left = absurd (omega arith)
split-line (suc (suc room)) (c ∷ l) rest h room_left =
    let other : (c == b'\n') ≡ false = ground (arith, h.0) in
    rw (other, split-line (suc room) l rest h.1 (omega arith)) refl

c_string-line : (l : Bytes) → All IsPlain l → c_string (l ++ (b'\n' ∷ [])) ≡ l ++ (b'\n' ∷ [])
unfolding c_string
c_string-line [] h = refl
c_string-line (c ∷ l) h =
    let other : (c == 0) ≡ false = ground (arith, h.0) in rw (other, c_string-line l h.1) refl

cut_at-line : (l : Bytes) → All IsPlain l → cut_at b'#' (l ++ (b'\n' ∷ [])) ≡ l ++ (b'\n' ∷ [])
unfolding cut_at
cut_at-line [] h = refl
cut_at-line (c ∷ l) h =
    let other : (c == b'#') ≡ false = ground (arith, h.0) in rw (other, cut_at-line l h.1) refl

read_line-line :
    (l : Bytes) (v : ℕ)
    → All IsPlain l
    → 0 < length l
    → scan_hex (l ++ (b'\n' ∷ [])) ≡ some v
    → read_line (l ++ (b'\n' ∷ [])) ≡ word v
unfolding read_line skip_blanks read_trimmed
read_line-line [] v h long e = absurd (omega arith)
read_line-line (c ∷ l) v h long e =
    rw (c_string-line (c ∷ l) h, cut_at-line (c ∷ l) h, no_space, no_tab, no_newline, e) refl
  where
    no_space : (c == b' ') ≡ false
    no_space = ground (arith, h.0)

    no_tab : (c == b'\t') ≡ false
    no_tab = ground (arith, h.0)

    no_newline : (c == b'\n') ≡ false
    no_newline = ground (arith, h.0)

read_line-format_08x : (v : ℕ) → IsU32 v → read_line (format_08x v ++ (b'\n' ∷ [])) ≡ word v
read_line-format_08x v h =
    read_line-line (format_08x v) v (unfold format_08x in hex_digits-IsPlain 8 v)
      (unfold format_08x in omega (arith, length-hex_digits 8 v)) (scan_hex-format_08x v h)

split-hex_text :
    (w : ℕ) (ws : List ℕ)
    → split 255 (hex_text (w ∷ ws)) ≡ (format_08x w ++ (b'\n' ∷ [])) ∷ split 255 (hex_text ws)
split-hex_text w ws =
    split-line 255 (format_08x w) (hex_text ws) (unfold format_08x in hex_digits-IsPlain 8 w)
      (unfold format_08x in omega (arith, length-hex_digits 8 w))

-- qhex finds in the file of some words these words.
pub content-hex_text :
    (n : ℕ) (ws : List ℕ)
    → All IsU32 ws
    → content n (map read_line (split 255 (hex_text ws))) ≡ words ws
unfolding content
content-hex_text n [] h = unfold split in refl
content-hex_text n (w ∷ ws) h =
    rw (split-hex_text w ws, read_line-format_08x w h.0, content, content-hex_text (n + 1) ws h.1)
      refl

pub load_words-IsU32 : (bs : Bytes) → AreBytes bs → All IsU32 (load_words bs)
unfolding load_words
load_words-IsU32 [] h = tt
load_words-IsU32 (b0 ∷ []) h = tt
load_words-IsU32 (b0 ∷ b1 ∷ []) h = tt
load_words-IsU32 (b0 ∷ b1 ∷ b2 ∷ []) h = tt
load_words-IsU32 (b0 ∷ b1 ∷ b2 ∷ b3 ∷ bs) (h0, (h1, (h2, (h3, h)))) =
    (omega arith, load_words-IsU32 bs h)

pub image_bytes-load_words :
    (n : ℕ) (bs : Bytes) → length bs ≡ 4 * n → AreBytes bs → image_bytes (load_words bs) ≡ bs
unfolding load_words
image_bytes-load_words n [] e h = refl
image_bytes-load_words n (b0 ∷ []) e h = absurd (omega arith)
image_bytes-load_words n (b0 ∷ b1 ∷ []) e h = absurd (omega arith)
image_bytes-load_words n (b0 ∷ b1 ∷ b2 ∷ []) e h = absurd (omega arith)
image_bytes-load_words zero (b0 ∷ b1 ∷ b2 ∷ b3 ∷ bs) e h = absurd (omega arith)
image_bytes-load_words (suc n) (b0 ∷ b1 ∷ b2 ∷ b3 ∷ bs) e (h0, (h1, (h2, (h3, h)))) =
    let rest = image_bytes-load_words n bs (omega arith) h in
    rw word_bytes_lem (ground (arith, rest))

-- The loop has read the words, or one of the allocations for them was refused.
by_outcome :
    (can_alloc : ℕ → Bool) (ws : List ℕ) (o : Outcome)
    → Meets can_alloc [] 0 o (words ws)
    → ((s : Scanned) × (o ≡ read_all s) × Represents s.buf ws × Grants can_alloc (length ws))
      ⊎ ((o ≡ out_of_memory) × Refuses can_alloc (length ws))
by_outcome can_alloc ws (read_all s) m = inl (s, refl, m.0, m.2)
by_outcome can_alloc ws (invalid_word n) m = absurd m
by_outcome can_alloc ws out_of_memory m = inr (refl, m)
by_outcome can_alloc ws stuck m = absurd m

-- For a valid image, if no allocation of 2 ^ 63 bytes or more is granted: `image_write_hex` writes
-- a file of as many words as the image has, and either `realloc` grants every size that they need, the
-- reading loop of qhex reads the file to its end, and `write_binary`, on a disk that takes every word,
-- writes the bytes of the image's buffer; or `realloc` refuses one of these sizes, and the loop ends out
-- of memory.
pub read_hex-image_write_hex :
    (can_alloc : ℕ → Bool) (img : ImageT)
    → ((n : ℕ) → can_alloc n ≡ true → n < 2 ^ 63)
    → IsValid img
    → (file : Bytes) × (image_write_hex true img ≡ text file)
      × (((s : Scanned) × (read_hex can_alloc file ≡ read_all s)
            × (write_words (λ i. true) s.buf.words s.buf.count 0 [] ≡ wrote img.buffer)
            × Grants can_alloc img.size_words)
          ⊎ ((read_hex can_alloc file ≡ out_of_memory) × Refuses can_alloc img.size_words))
read_hex-image_write_hex can_alloc img bound v = (
  hex_text ws,
  (image_write_hex_lem img v).0,
  elim (by_outcome can_alloc ws (read_hex can_alloc (hex_text ws)) meets) [
    | inr (out, refused) ↦ inr (out, rw counted at refused)
    | inl (s, reads, r, granted) ↦ inl (
      s,
      reads,
      write_words_lem (λ i. true) s.buf ws r
          ∙ outcome-wrote (λ i. true) ws 0 [] (λ k. refl)
          ∙ ap wrote (image_bytes-load_words img.size_words img.buffer v.sized v.bytes),
      rw counted at granted,
    )
  ],
)
  where
    ws : List ℕ
    ws = load_words img.buffer

    counted : length ws ≡ img.size_words
    counted = length-load_words img.size_words img.buffer v.sized

    meets : Meets can_alloc [] 0 (read_hex can_alloc (hex_text ws)) (words ws)
    meets =
        rw (content-hex_text 0 ws (load_words-IsU32 img.buffer v.bytes)) at
          (read_hex-Meets can_alloc (hex_text ws) bound)
