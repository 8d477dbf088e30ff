-- ===== src/Qhex/Program.antt =====
-- `main` of devkit/tools/qhex/main.c: the arguments, the file, the report and the image.
pub mod Whole
pub mod Arguments
use qar_mvp.Prelude.{
  ℕ, ◌-◌, Bool, Option, none, some, List, [], ◌∷◌, ltb, if◌then◌else◌, Bytes, get_elem?,
}
use qar_mvp.Libc.Stream.{same_text}
use qar_mvp.Qhex.Reader.{Scanned, Outcome, read_all, invalid_word, out_of_memory, stuck, read_hex}
use qar_mvp.Qhex.Binary.{Written, wrote, failed, unwritten, write_binary}

abbrev pub dash_bin : Bytes
dash_bin = b'-' ∷ b'-' ∷ b'b' ∷ b'i' ∷ b'n' ∷ []

-- The arguments behind the program's name.
pub data Args : Type 0 where
  parsed : Option Bytes → Bytes → Args
  bin_requires_path : Args
  multiple_inputs : Args
  no_input : Args

-- The checks behind the loop.
abbrev finish_args : Option Bytes → Option Bytes → Args
finish_args bin_out none = no_input
finish_args bin_out (some hex_path) = parsed bin_out hex_path

-- A path, when one was given already.
abbrev pub second_input : Option Bytes → Args → Args
second_input none rest = rest
second_input (some hex_path) rest = multiple_inputs

unfoldable pub parse_args : List Bytes → Option Bytes → Option Bytes → Args
parse_args [] bin_out hex_path = finish_args bin_out hex_path
parse_args (a ∷ []) bin_out hex_path =
    if same_text a dash_bin
    then bin_requires_path
    else second_input hex_path (finish_args bin_out (some a))
parse_args (a ∷ b ∷ rest) bin_out hex_path =
    let binary = parse_args rest (some b) hex_path in
    let input = parse_args (b ∷ rest) bin_out (some a) in
    if same_text a dash_bin then binary else second_input hex_path input

-- What `main` prints: the counts, and the first and the last word if there is one.
pub record Report : Type 0 where
  pub count : ℕ
  pub nonzero : ℕ
  pub ends : Option (Option (Option ℕ) × Option (Option ℕ))

unfoldable pub report : Scanned → Report
report s = record {
  count = s.buf.count;
  nonzero = s.nonzero;
  ends =
      if ltb 0 s.buf.count
      then some (get_elem? s.buf.words 0, get_elem? s.buf.words (s.buf.count - 1))
      else none;
}

-- The host: the allocator, the files that can be read, those that can be created, and the writes
-- that succeed.
pub record Host : Type 0 where
  pub can_alloc : ℕ → Bool
  pub read_file : Bytes → Option Bytes
  pub can_create : Bytes → Bool
  pub can_write : ℕ → Bool

-- The ways that `main` returns. Only `finished` and `converted` are a return of 0.
pub data Exit : Type 0 where
  usage : Args → Exit
  cannot_open : Exit
  bad_word : ℕ → Exit
  no_memory : Exit
  finished : Report → Exit
  converted : Report → Bytes → Exit
  not_written : Report → Option Written → Exit
  hung : Exit

abbrev pub image_exit : Report → Option Written → Exit
image_exit r none = not_written r none
image_exit r (some (wrote image)) = converted r image
image_exit r (some (failed image)) = not_written r (some (failed image))
image_exit r (some unwritten) = not_written r (some unwritten)

-- Behind the loop.
abbrev pub conclude : Host → Option Bytes → Outcome → Exit
conclude h bin_out (invalid_word n) = bad_word n
conclude h bin_out out_of_memory = no_memory
conclude h bin_out stuck = hung
conclude h none (read_all s) = finished (report s)
conclude h (some path) (read_all s) =
    image_exit (report s) (write_binary (h.can_create path) h.can_write s.buf)

abbrev pub with_args : Host → Args → Exit
with_args h (parsed bin_out hex_path) = elim (h.read_file hex_path) [
  | none ↦ cannot_open
  | some text ↦ conclude h bin_out (read_hex h.can_alloc text)
]
with_args h a = usage a

unfoldable pub main : Host → List Bytes → Exit
main h args = with_args h (parse_args args none none)
