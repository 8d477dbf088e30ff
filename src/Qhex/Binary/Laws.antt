-- ===== src/Qhex/Binary/Laws.antt =====
-- The bytes of the binary image, and the words that they stand for.
use mathlib.Core.List.{map}
use qar_mvp.Prelude.{
  ℕ, ◌+◌, ◌*◌, ◌/◌, ◌%◌, ◌^◌, ◌≡◌, refl, sym, ap, ◌∙◌, Bool, true, false, Option, some, List, [],
  ◌∷◌, ◌++◌, length, length-append, load_words, get_elem?, arith, bit_and_mask, Bytes, IsU32, All,
  append_assoc, append-nil,
}
use qar_mvp.Qhex.Buffer.{WordBuffer}
use qar_mvp.Qhex.Buffer.Laws.{Represents}
use qar_mvp.Qhex.Binary.{word_bytes, Written, wrote, failed, write_words}

-- The four bytes of a word, the lowest first.
pub word_bytes_lem :
    (w : ℕ) → word_bytes w ≡ w % 256 ∷ w / 256 % 256 ∷ w / 65536 % 256 ∷ w / 16777216 % 256 ∷ []
unfolding word_bytes
word_bytes_lem w = ground (
  arith,
  bit_and_mask 8 w,
  bit_and_mask 8 (w / 2 ^ 8),
  bit_and_mask 8 (w / 2 ^ 16),
  bit_and_mask 8 (w / 2 ^ 24),
)

-- The image of a list of words.
abbrev pub image_bytes : List ℕ → Bytes
image_bytes [] = []
image_bytes (w ∷ ws) = word_bytes w ++ image_bytes ws

pub length-image_bytes : (ws : List ℕ) → length (image_bytes ws) ≡ 4 * length ws
length-image_bytes [] = refl
length-image_bytes (w ∷ ws) = rw word_bytes_lem (omega (arith, length-image_bytes ws))

pub load_words-image_bytes : (ws : List ℕ) → All IsU32 ws → load_words (image_bytes ws) ≡ ws
unfolding load_words
load_words-image_bytes [] h = refl
load_words-image_bytes (w ∷ ws) h =
    rw word_bytes_lem (ground (arith, load_words-image_bytes ws h.1))

-- What is in the output file, when `fwrite` takes the words as `can_write` says: all of them, or
-- those before the first that is refused.
unfoldable pub outcome : (ℕ → Bool) → ℕ → List ℕ → Bytes → Written
outcome can_write i [] out = wrote out
outcome can_write i (w ∷ ws) out = elim (can_write i) [
  | true ↦ outcome can_write (i + 1) ws (out ++ word_bytes w)
  | false ↦ failed out
]

get_elem?-middle :
    (done : List ℕ) (w : ℕ) (rest : List (Option ℕ))
    → get_elem? (map some done ++ (some w ∷ rest)) (length done) ≡ some (some w)
get_elem?-middle [] w rest = refl
get_elem?-middle (d ∷ done) w rest = get_elem?-middle done w rest

map-some_move :
    (done : List ℕ) (w : ℕ) (rest : List (Option ℕ))
    → map some done ++ (some w ∷ rest) ≡ map some (done ++ (w ∷ [])) ++ rest
map-some_move [] w rest = refl
map-some_move (d ∷ done) w rest = ap (◌∷◌ (some d)) (map-some_move done w rest)

write_words-outcome :
    (can_write : ℕ → Bool) (ws done : List ℕ) (spare : List (Option ℕ)) (out : Bytes)
    → write_words can_write (map some done ++ (map some ws ++ spare)) (length ws) (length done) out
      ≡ outcome can_write (length done) ws out
unfolding write_words outcome
write_words-outcome can_write [] done spare out = refl
write_words-outcome can_write (w ∷ ws) done spare out =
    rw (get_elem?-middle done w (map some ws ++ spare), write_words)
      (by_write
        (next (write_words-outcome can_write ws (done ++ (w ∷ [])) spare (out ++ word_bytes w)))
        (can_write (length done)))
  where
    cells : List (Option ℕ)
    cells = map some done ++ (some w ∷ (map some ws ++ spare))

    longer : length (done ++ (w ∷ [])) ≡ length done + 1
    longer = length-append done (w ∷ [])

    next :
        write_words can_write
            (map some (done ++ (w ∷ [])) ++ (map some ws ++ spare))
            (length ws)
            (length (done ++ (w ∷ [])))
            (out ++ word_bytes w)
          ≡ outcome can_write (length (done ++ (w ∷ []))) ws (out ++ word_bytes w)
        → write_words can_write cells (length ws) (length done + 1) (out ++ word_bytes w)
          ≡ outcome can_write (length done + 1) ws (out ++ word_bytes w)
    next h = rw (longer, ← map-some_move done w (map some ws ++ spare)) at h

    by_write :
        write_words can_write cells (length ws) (length done + 1) (out ++ word_bytes w)
          ≡ outcome can_write (length done + 1) ws (out ++ word_bytes w)
        → (b : Bool)
        → ◌≡◌ {A = Written}
            (elim b [
              | true ↦
                  write_words can_write cells (length ws) (length done + 1) (out ++ word_bytes w)
              | false ↦ failed out
            ])
            (elim b [
              | true ↦ outcome can_write (length done + 1) ws (out ++ word_bytes w)
              | false ↦ failed out
            ])
    by_write h true = h
    by_write h false = refl

-- On an array that represents `ws`, `write_binary`'s loop reads no unwritten cell and writes the
-- image of `ws` word by word, up to the first `fwrite` that fails.
pub write_words_lem :
    (can_write : ℕ → Bool) (b : WordBuffer) (ws : List ℕ)
    → Represents b ws
    → write_words can_write b.words b.count 0 [] ≡ outcome can_write 0 ws []
write_words_lem can_write b ws r =
    rw (r.cells, r.counted) (write_words-outcome can_write ws [] r.spare [])

pub outcome-wrote :
    (can_write : ℕ → Bool) (ws : List ℕ) (i : ℕ) (out : Bytes)
    → ((k : ℕ) → can_write k ≡ true)
    → outcome can_write i ws out ≡ wrote (out ++ image_bytes ws)
unfolding outcome
outcome-wrote can_write [] i out all = ap wrote (sym (append-nil out))
outcome-wrote can_write (w ∷ ws) i out all =
    rw (all i, outcome)
      (outcome-wrote can_write ws (i + 1) (out ++ word_bytes w) all
        ∙ ap wrote (append_assoc out (word_bytes w) (image_bytes ws)))

-- A disk that takes every word gets the whole image: four bytes for each word, from which a loader
-- reads the words again.
pub write_words-image_bytes :
    (can_write : ℕ → Bool) (b : WordBuffer) (ws : List ℕ)
    → Represents b ws
    → All IsU32 ws
    → ((k : ℕ) → can_write k ≡ true)
    → (image : Bytes) × (write_words can_write b.words b.count 0 [] ≡ wrote image)
      × (length image ≡ 4 * b.count)
      × (load_words image ≡ ws)
write_words-image_bytes can_write b ws r fits all = (
  image_bytes ws,
  write_words_lem can_write b ws r ∙ outcome-wrote can_write ws 0 [] all,
  omega (arith, length-image_bytes ws, r.counted),
  load_words-image_bytes ws fits,
)
