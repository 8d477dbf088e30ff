-- ===== src/Qhex/Reader.antt =====
-- The reading loop of `main` in devkit/tools/qhex/main.c.
pub mod Laws
use qar_mvp.Prelude.{
  ℕ, zero, suc, ◌+◌, ◌-◌, Bool, true, false, not, ◌||◌, Option, none, some, List, [], ◌∷◌, ◌++◌,
  ◌==◌, if◌then◌else◌, length, Bytes,
}
use qar_mvp.Libc.Stream.{fgets, c_string, cut_at}
use qar_mvp.Libc.Scan.{scan_hex}
use qar_mvp.Qhex.Buffer.{WordBuffer, empty_buffer, append_word}

-- `while (*trim == ' ' || *trim == '\t') trim++;`
unfoldable pub skip_blanks : Bytes → Bytes
skip_blanks [] = []
skip_blanks (c ∷ t) = if c == b' ' || c == b'\t' then skip_blanks t else c ∷ t

-- What a line comes to.
pub data Line : Type 0 where
  blank : Line
  word : ℕ → Line
  invalid : Line

-- The test on what is left, then `sscanf(trim, "%x", &value) != 1`.
unfoldable pub read_trimmed : Bytes → Line
read_trimmed [] = blank
read_trimmed (c ∷ t) =
    if c == b'\n' then blank else elim (scan_hex (c ∷ t)) [ none ↦ invalid | some v ↦ word v ]

-- One line: the comment is cut off, and blanks are skipped.
unfoldable pub read_line : Bytes → Line
read_line line = read_trimmed (skip_blanks (cut_at b'#' (c_string line)))

pub record Scanned : Type 0 where
  pub buf : WordBuffer
  pub nonzero : ℕ
  pub line_num : ℕ

-- How the loop ends. `stuck` is no outcome of the program: the model ran out of fuel.
pub data Outcome : Type 0 where
  read_all : Scanned → Outcome
  invalid_word : ℕ → Outcome
  out_of_memory : Outcome
  stuck : Outcome

-- The body of the loop behind `line_num++`, on what the line comes to; `next` is the rest of the
-- loop.
unfoldable pub on_line : (ℕ → Bool) → Line → Scanned → (Scanned → Outcome) → Outcome
on_line can_alloc blank s next = next s
on_line can_alloc invalid s next = invalid_word s.line_num
on_line can_alloc (word v) s next = elim (append_word can_alloc s.buf v) [
  | none ↦ out_of_memory
  | some b ↦ next (record s { buf = b; nonzero = if v == 0 then s.nonzero else s.nonzero + 1 })
]

-- `while (fgets(line, sizeof(line), in))`, with fuel for the lines.
unfoldable pub read_lines : (ℕ → Bool) → ℕ → Bytes → Scanned → Outcome
read_lines can_alloc zero text s = stuck
read_lines can_alloc (suc fuel) text s = elim (fgets 256 text) [
  | none ↦ read_all s
  | some (line, rest) ↦
      on_line can_alloc (read_line line) (record s { line_num = s.line_num + 1 })
        (read_lines can_alloc fuel rest)
]

-- A line has a character at least, so one unit for each character is enough, and one for the end.
unfoldable pub read_hex : (ℕ → Bool) → Bytes → Outcome
read_hex can_alloc text =
    read_lines can_alloc (length text + 1) text
      (record { buf = empty_buffer; nonzero = 0; line_num = 0 })
