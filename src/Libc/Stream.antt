-- ===== src/Libc/Stream.antt =====
-- Streams: `fgets` on a text file, and `fread`, `fseek` and `ftell` on a binary one.
pub mod Laws
use qar_mvp.Prelude.{
  ℕ, zero, suc, ◌+◌, ◌-◌, Bool, true, false, Option, none, some, [], ◌∷◌, Bytes, ◌==◌,
  if◌then◌else◌, length, take, drop, ◌&&◌,
}

-- The characters up to and with the next newline, at most `room` of them, and what is left.
unfoldable pub next_line : ℕ → Bytes → Bytes × Bytes
next_line zero text = ([], text)
next_line (suc room) [] = ([], [])
next_line (suc room) (c ∷ t) =
    let (line, rest) = next_line room t in if c == b'\n' then (c ∷ [], t) else (c ∷ line, rest)

-- `fgets(line, size, in)`; `none` is the null pointer at the end of the file.
unfoldable pub fgets : ℕ → Bytes → Option (Bytes × Bytes)
fgets size [] = none
fgets size (c ∷ t) = some (next_line (size - 1) (c ∷ t))

-- The characters of a C string: those before the first NUL.
unfoldable pub c_string : Bytes → Bytes
c_string [] = []
c_string (c ∷ t) = if c == 0 then [] else c ∷ c_string t

-- `char *p = strchr(s, b); if (p) *p = '\0';`
unfoldable pub cut_at : ℕ → Bytes → Bytes
cut_at b [] = []
cut_at b (c ∷ t) = if c == b then [] else c ∷ cut_at b t

-- An open file: its bytes and the position.
pub record File : Type 0 where
  pub content : Bytes
  pub position : ℕ

-- `fread(ptr, 1, n, f)`: the bytes that are there, and the file behind them.
unfoldable pub fread : ℕ → File → Bytes × File
fread n f =
    let got = take n (drop f.position f.content) in
    (got, record f { position = f.position + length got })

-- `fread(ptr, n, 1, f) == 1` for an object of `n` bytes; `none` is a short read.
unfoldable pub fread_object : ℕ → File → Option (Bytes × File)
fread_object n f = let (got, f') = fread n f in if length got == n then some (got, f') else none

-- `fseek(f, offset, SEEK_SET)` that succeeds; it may go behind the end.
unfoldable pub fseek : ℕ → File → File
fseek offset f = record f { position = offset }

-- `strcmp(a, b) == 0`.
unfoldable pub same_text : Bytes → Bytes → Bool
same_text [] [] = true
same_text (x ∷ xs) (y ∷ ys) = x == y && same_text xs ys
same_text _ _ = false
