-- ===== src/Qhex/Reader/Laws.antt =====
-- The reading loop against a description of the file line by line.
use qar_mvp.Prelude.{
  ℕ, zero, suc, ◌+◌, ◌^◌, ◌≤◌, ◌<◌, ◌≡◌, refl, ap, Bool, true, false, ◌||◌, List, [], ◌∷◌, ◌++◌,
  ◌==◌, if◌then◌else◌, length, length-append, Bytes, arith, append_assoc, append-nil, Bool-cases,
  inl, inr,
}
use mathlib.Core.List.{map}
use qar_mvp.Libc.Stream.{next_line, fgets}
use qar_mvp.Qhex.Buffer.{empty_buffer}
use qar_mvp.Qhex.Buffer.Laws.{Represents, empty-Represents, append_word-Appends}
use qar_mvp.Qhex.Buffer.Growth.{
  Grants, Refuses, HasGrown, empty-HasGrown, Represents-Grants, append_word-HasGrown, refusal,
}
use qar_mvp.Qhex.Reader.{
  Line, blank, word, invalid, read_line, Scanned, Outcome, read_all, invalid_word, out_of_memory,
  stuck, on_line, read_lines, read_hex,
}

abbrev onto_first : ℕ → List Bytes → List Bytes
onto_first c [] = (c ∷ []) ∷ []
onto_first c (l ∷ ls) = (c ∷ l) ∷ ls

-- One character less, and is it the last one?
abbrev less : ℕ → ℕ
less zero = zero
less (suc room) = room

abbrev is_last : ℕ → Bool
is_last (suc (suc room)) = false
is_last _ = true

-- The text in pieces: each ends behind a newline, or after 255 characters, or with the text. `room`
-- is what the first piece has left.
unfoldable pub split : ℕ → Bytes → List Bytes
split room [] = []
split room (c ∷ t) =
    let whole = (c ∷ []) ∷ split 255 t in
    let more = onto_first c (split (less room) t) in
    if c == b'\n' || is_last room then whole else more

-- What the file says, read line by line: its words, or those before the first invalid line with the
-- number of that line.
pub data Content : Type 0 where
  words : List ℕ → Content
  bad : List ℕ → ℕ → Content

abbrev pub words_of : Content → List ℕ
words_of (words ws) = ws
words_of (bad ws n) = ws

abbrev pub with_word : ℕ → Content → Content
with_word v (words ws) = words (v ∷ ws)
with_word v (bad ws n) = bad (v ∷ ws) n

-- The lines so far are `n`.
unfoldable pub content : ℕ → List Line → Content
content n [] = words []
content n (blank ∷ ls) = content (n + 1) ls
content n (word v ∷ ls) = with_word v (content (n + 1) ls)
content n (invalid ∷ ls) = bad [] (n + 1)

abbrev pub nonzero_count : List ℕ → ℕ
nonzero_count [] = 0
nonzero_count (v ∷ vs) = (if v == 0 then 0 else 1) + nonzero_count vs

next_line-split :
    (room : ℕ) (c : ℕ) (t : Bytes)
    → split (suc room) (c ∷ t)
      ≡ (next_line (suc room) (c ∷ t)).0 ∷ split 255 (next_line (suc room) (c ∷ t)).1
unfolding split next_line
next_line-split zero c t = elim (Bool-cases (c == b'\n')) [ inl e ↦ rw e refl | inr e ↦ rw e refl ]
next_line-split (suc room) c [] = elim (Bool-cases (c == b'\n')) [
  | inl e ↦ rw e refl
  | inr e ↦ rw e refl
]
next_line-split (suc room) c (d ∷ t) = elim (Bool-cases (c == b'\n')) [
  | inl e ↦ rw e refl
  | inr e ↦ rw e (ap (onto_first c) (next_line-split room d t))
]

next_line_shorter : (room c : ℕ) (t : Bytes) → length (next_line (suc room) (c ∷ t)).1 ≤ length t
unfolding next_line
next_line_shorter zero c t = elim (Bool-cases (c == b'\n')) [
  | inl e ↦ rw e (omega arith)
  | inr e ↦ rw e (omega arith)
]
next_line_shorter (suc room) c [] = elim (Bool-cases (c == b'\n')) [
  | inl e ↦ rw e (omega arith)
  | inr e ↦ rw e (omega arith)
]
next_line_shorter (suc room) c (d ∷ t) = elim (Bool-cases (c == b'\n')) [
  | inl e ↦ rw e (omega arith)
  | inr e ↦ rw e (omega (arith, next_line_shorter room d t))
]

-- The loop ends as the lines say. From an array that holds `ws` and a count of `n` it goes on to
-- the words of the file and the number of those that are not zero, or to the first invalid line, and
-- every allocation for the words was granted; or one that they need was refused.
abbrev pub Meets : (ℕ → Bool) → List ℕ → ℕ → Outcome → Content → Type 0
Meets can_alloc ws n (read_all s) (words vs) =
    Represents s.buf (ws ++ vs)
    × (s.nonzero ≡ n + nonzero_count vs)
    × Grants can_alloc (length (ws ++ vs))
Meets can_alloc ws n (read_all s) (bad vs l) = ⊥
Meets can_alloc ws n (invalid_word k) (words vs) = ⊥
Meets can_alloc ws n (invalid_word k) (bad vs l) = (k ≡ l) × Grants can_alloc (length (ws ++ vs))
Meets can_alloc ws n out_of_memory c = Refuses can_alloc (length (ws ++ words_of c))
Meets can_alloc ws n stuck c = ⊥

module _ (can_alloc : ℕ → Bool) (bound : (n : ℕ) → can_alloc n ≡ true → n < 2 ^ 63) where
  Meets-with_word :
      (ws : List ℕ) (n v : ℕ) (o : Outcome) (c : Content)
      → Meets can_alloc (ws ++ (v ∷ [])) (if v == 0 then n else n + 1) o c
      → Meets can_alloc ws n o (with_word v c)
  Meets-with_word ws n v (read_all s) (words vs) (r, k, g) =
      (rw append_assoc at r, ground arith, rw append_assoc at g)
  Meets-with_word ws n v (read_all s) (bad vs l) m = m
  Meets-with_word ws n v (invalid_word k) (words vs) m = m
  Meets-with_word ws n v (invalid_word k) (bad vs l) (e, g) = (e, rw append_assoc at g)
  Meets-with_word ws n v out_of_memory (words vs) m = rw append_assoc at m
  Meets-with_word ws n v out_of_memory (bad vs l) m = rw append_assoc at m
  Meets-with_word ws n v stuck (words vs) m = m
  Meets-with_word ws n v stuck (bad vs l) m = m

  -- The rest of the loop does as the lines say, from whatever array and count.
  abbrev Goes : ℕ → List Line → (Scanned → Outcome) → Type 0
  Goes n ls next =
      (t : Scanned) (us : List ℕ)
      → t.line_num ≡ n
      → Represents t.buf us
      → HasGrown can_alloc t.buf
      → Meets can_alloc us t.nonzero (next t) (content n ls)

  on_line-Meets :
      (n : ℕ) (line : Line) (ls : List Line) (ws : List ℕ) (s : Scanned) (next : Scanned → Outcome)
      → s.line_num ≡ n + 1
      → Represents s.buf ws
      → HasGrown can_alloc s.buf
      → Goes (n + 1) ls next
      → Meets can_alloc ws s.nonzero (on_line can_alloc line s next) (content n (line ∷ ls))
  unfolding on_line content
  on_line-Meets n blank ls ws s next e r g goes = goes s ws e r g
  on_line-Meets n invalid ls ws s next e r g goes =
      (e, rw append-nil (Represents-Grants can_alloc r g))
  on_line-Meets n (word v) ls ws s next e r g goes =
      elim (append_word-Appends can_alloc s.buf ws v bound r) [
        | inl (b, added, r') ↦
            let s' = record s { buf = b; nonzero = if v == 0 then s.nonzero else s.nonzero + 1 } in
            let step : on_line can_alloc (word v) s next ≡ next s' = rw (added, on_line) refl in
            rw step (
              Meets-with_word ws s.nonzero v (next s') (content (n + 1) ls) (
                goes s' (ws ++ (v ∷ [])) e r'
                  (append_word-HasGrown can_alloc s.buf b ws v r g added)))
        | inr (failed, full, refused) ↦
            let step : on_line can_alloc (word v) s next ≡ out_of_memory =
              rw (failed, on_line) refl in
            rw step (
              out_of (content (n + 1) ls)
                (λ m more. refusal can_alloc s.buf ws m r g full refused more))
      ]
    where
      -- The word itself needs more than the array has.
      out_of :
          (c : Content)
          → ((m : ℕ) → length ws < m → Refuses can_alloc m)
          → Meets can_alloc ws s.nonzero out_of_memory (with_word v c)
      out_of (words vs) h = h _ (omega (arith, length-append ws (v ∷ vs)))
      out_of (bad vs l) h = h _ (omega (arith, length-append ws (v ∷ vs)))

  read_lines-Meets :
      (fuel n : ℕ) (text : Bytes) (s : Scanned) (ws : List ℕ)
      → length text < fuel
      → s.line_num ≡ n
      → Represents s.buf ws
      → HasGrown can_alloc s.buf
      → Meets can_alloc ws s.nonzero
          (read_lines can_alloc fuel text s)
          (content n (map read_line (split 255 text)))
  unfolding read_lines fgets
  read_lines-Meets zero n text s ws h e r g = absurd (omega arith)
  read_lines-Meets (suc fuel) n [] s ws h e r g =
      unfold content split in
      (rw append-nil r, omega arith, rw append-nil (Represents-Grants can_alloc r g))
  read_lines-Meets (suc fuel) n (c ∷ t) s ws h e r g =
      let (line, rest) = next_line 255 (c ∷ t) in
      rw (next_line-split 254 c t) (
        on_line-Meets n (read_line line) (map read_line (split 255 rest)) ws
          (record s { line_num = s.line_num + 1 }) (read_lines can_alloc fuel rest)
          (ap (λ (k : ℕ). k + 1) e) r g
          (λ u us e' r' g'.
            read_lines-Meets fuel (n + 1) rest u us (omega (arith, next_line_shorter 254 c t)) e' r'
              g'))

-- On every file, if no allocation of 2 ^ 63 bytes or more is granted, the loop ends: with the words of
-- the file in the array, in order, and the number of those that are not zero, or at the first line that
-- holds no word, with its number, and then `realloc` granted every size that the words before need; or
-- out of memory, and then it refused one of these sizes: the first 256 bytes, or twice as many as before.
pub read_hex-Meets :
    (can_alloc : ℕ → Bool) (text : Bytes)
    → ((n : ℕ) → can_alloc n ≡ true → n < 2 ^ 63)
    → Meets can_alloc [] 0 (read_hex can_alloc text) (content 0 (map read_line (split 255 text)))
unfolding read_hex
read_hex-Meets can_alloc text bound =
    read_lines-Meets can_alloc bound (length text + 1) 0 text
      (record { buf = empty_buffer; nonzero = 0; line_num = 0 }) [] (omega arith) refl
      empty-Represents (empty-HasGrown can_alloc)
