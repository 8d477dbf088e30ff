-- ===== src/Tests/Programs.antt =====
-- Runs of the two `main` functions, and instances of the theorems on them.
use qar_mvp.Prelude.{
  Bool, ◌⊎◌, ◌+◌, ◌*◌, ◌^◌, ◌<◌, ◌≡◌, refl, arith, true, false, none, some, [], ◌∷◌, List, Bytes,
  AreBytes, length,
}
use mathlib.Core.List.{map}
use qar_mvp.Libc.Stream.{File, same_text}
use qar_mvp.Elf2qar.Load.{Host, Loader, load_segments}
use qar_mvp.Elf2qar.Elf.{ehdr_of, phdr_of, le16, le32, has_magic}
use qar_mvp.Elf2qar.Load.Expected.{Memory, loads, expected, both_laid, header, segment_of}
use qar_mvp.Libc.Scan.{
  strtoul, skip_space, take_sign, to_ulong, auto_number, leading_digits, number_from, digit_in,
}
use qar_mvp.Pipeline.Whole.{Converting, Makes, chosen, file_of, main-Makes}
use qar_mvp.Elf2qar.Load.Rounds.{Sound, memories}
use qar_mvp.Elf2qar.Load.Refines.{Matches, load_segments-Matches}
use qar_mvp.Elf2qar.Program
use qar_mvp.Elf2qar.Program.{Options, Files}
use qar_mvp.Elf2qar.Program.Verdict.{Meets, verdict, converts, zeros}
use qar_mvp.Elf2qar.Program.Whole.{main-Meets}
use qar_mvp.Elf2qar.Program.Defined.{IsDefined, main-IsDefined}
use qar_mvp.Elf2qar.Program.Arguments
use qar_mvp.Elf2qar.Program.Arguments.{Settings, settled, Rejected, parse_options-cases}
use qar_mvp.Qhex.Program as Qhex
use qar_mvp.Qhex.Program.Arguments as QhexArguments
use qar_mvp.Qhex.Program.Arguments.{Item, inputs, last_bin, understood, parse_args-Reads}
use qar_mvp.Qhex.Program.Whole.{Emits, main-Emits}
use qar_mvp.Qhex.Reader.{read_line}
use qar_mvp.Qhex.Reader.Laws.{content, split}
use qar_mvp.Tests.Tools.{small_image, small_image-IsValid, grants, grants_bound, hex_lines_text}

-- A file of one program header and one segment of four bytes, for address 0.
abbrev elf_bytes : Bytes
elf_bytes =
    0x7F ∷ b'E' ∷ b'L' ∷ b'F' ∷ 1 ∷ 1 ∷ 1 ∷ 0 ∷ 0 ∷ 0 ∷ 0 ∷ 0 ∷ 0 ∷ 0 ∷ 0 ∷ 0 ∷ 2 ∷ 0 ∷ 243 ∷ 0 ∷ 1
    ∷ 0 ∷ 0 ∷ 0 ∷ 0 ∷ 0 ∷ 0 ∷ 0 ∷ 52 ∷ 0 ∷ 0 ∷ 0 ∷ 0 ∷ 0 ∷ 0 ∷ 0 ∷ 0 ∷ 0 ∷ 0 ∷ 0 ∷ 52 ∷ 0 ∷ 32 ∷ 0
    ∷ 1 ∷ 0 ∷ 0 ∷ 0 ∷ 0 ∷ 0 ∷ 0 ∷ 0 ∷ 1 ∷ 0 ∷ 0 ∷ 0 ∷ 84 ∷ 0 ∷ 0 ∷ 0 ∷ 0 ∷ 0 ∷ 0 ∷ 0 ∷ 0 ∷ 0 ∷ 0 ∷ 0
    ∷ 4 ∷ 0 ∷ 0 ∷ 0 ∷ 4 ∷ 0 ∷ 0 ∷ 0 ∷ 5 ∷ 0 ∷ 0 ∷ 0 ∷ 4 ∷ 0 ∷ 0 ∷ 0 ∷ 0x13 ∷ 5 ∷ 0xA0 ∷ 2 ∷ []

elf_bytes-AreBytes : AreBytes elf_bytes
elf_bytes-AreBytes = omega arith

abbrev host : Host
host = record { can_alloc = grants; can_seek = λ n. true }

abbrev loader : Loader
loader = record {
  elf = record { content = elf_bytes; position = 0 };
  imem = small_image;
  dmem = small_image;
}

loader-Sound : Sound 2 2 loader.imem loader.dmem
loader-Sound = record {
  imem_valid = small_image-IsValid;
  dmem_valid = small_image-IsValid;
  imem_base = refl;
  dmem_base = refl;
  imem_size = refl;
  dmem_size = refl;
}

abbrev table : File
table = record { content = elf_bytes; position = 52 }

load_segments_example :
    Matches host 2 2 elf_bytes
      (52 + 32 * 1)
      (load_segments host 1 0 (record loader { elf = table }))
      (expected host 2 2 elf_bytes 1 0 52 (memories loader))
load_segments_example =
    load_segments-Matches host 2 2 1 0 table loader loader-Sound elf_bytes-AreBytes (omega arith)
      (λ k. refl)

abbrev elf_name : Bytes
elf_name = b'a' ∷ []

abbrev files : Files
files = record { read_file = λ path. some elf_bytes; can_create = λ path. true }

abbrev elf_args : List Bytes
elf_args = (b'-' ∷ b'-' ∷ b'e' ∷ b'l' ∷ b'f' ∷ []) ∷ elf_name ∷ []

abbrev elf_options : Options
elf_options = record Program.default_options { elf_path = some elf_name }

elf_args_lem : Program.parse_options elf_args Program.default_options ≡ some elf_options
unfolding Program.parse_options Program.set_option same_text
elf_args_lem = refl

elf_main_example :
    Meets files elf_options (Program.main host files elf_args) (verdict host elf_options elf_bytes)
elf_main_example =
    main-Meets host files elf_args elf_options elf_name elf_bytes elf_args_lem refl refl
      elf_bytes-AreBytes (omega arith) (omega arith) (omega arith) (λ n. refl)

-- Each option gives the two memories of elf2qar 64 words.
elf_args_sized :
    (o : Options)
    → Program.parse_options elf_args Program.default_options ≡ some o
    → (4 * o.imem_words < 2 ^ 32) × (4 * o.dmem_words < 2 ^ 32)
elf_args_sized o e = rw (← same) (omega arith, omega arith)
  where
    same : elf_options ≡ o
    same = cc (elf_args_lem, e)

elf_bytes-readable :
    (path bytes : Bytes) → some elf_bytes ≡ some bytes → AreBytes bytes × (length bytes < 2 ^ 29)
elf_bytes-readable path bytes e = rw (← same) (elf_bytes-AreBytes, omega arith)
  where
    same : elf_bytes ≡ bytes
    same = cc

elf_access_example : IsDefined (Program.main host files elf_args)
elf_access_example =
    main-IsDefined host files elf_args elf_bytes-readable elf_args_sized (λ n. refl)

abbrev qhex_host : Qhex.Host
qhex_host = record {
  can_alloc = grants;
  read_file = λ path. some hex_lines_text;
  can_create = λ path. true;
  can_write = λ i. true;
}

qhex_args_lem : Qhex.parse_args (elf_name ∷ []) none none ≡ Qhex.parsed none elf_name
unfolding Qhex.parse_args same_text
qhex_args_lem = refl

qhex_main_example :
    Emits qhex_host none
      (Qhex.main qhex_host (elf_name ∷ []))
      (content 0 (map read_line (split 255 hex_lines_text)))
qhex_main_example =
    main-Emits qhex_host (elf_name ∷ []) none elf_name hex_lines_text qhex_args_lem refl
      grants_bound

-- Two inputs, with an option between them.
abbrev two_inputs : List Bytes
two_inputs = elf_name ∷ (b'-' ∷ b'-' ∷ b'b' ∷ b'i' ∷ b'n' ∷ []) ∷ elf_name ∷ elf_name ∷ []

parse_args_example :
    (items : List Item) × (cut : Bool) × QhexArguments.Reads two_inputs items cut
    × (Qhex.parse_args two_inputs none none ≡ understood (inputs items) (last_bin none items) cut)
parse_args_example = parse_args-Reads two_inputs

parse_options_example :
    ((settings : Settings) × Arguments.Reads elf_args settings
      × (Program.parse_options elf_args Program.default_options
          ≡ some (settled Program.default_options settings)))
    ⊎ (Rejected elf_args × (Program.parse_options elf_args Program.default_options ≡ none))
parse_options_example = parse_options-cases elf_args

-- The two memories of the file: the segment at the beginning of the program, and zeros.
abbrev elf_memories : Memory × Memory
elf_memories =
    both_laid 64 64 (header elf_bytes 52) (segment_of elf_bytes (header elf_bytes 52))
      (zeros 64, zeros 64)

elf_loads : verdict host elf_options elf_bytes ≡ converts (loads elf_memories)
unfolding expected ehdr_of phdr_of le16 le32 has_magic
elf_loads = refl

abbrev reading_host : Qhex.Host
reading_host = record {
  can_alloc = grants;
  read_file = λ path. file_of false (Program.main host files elf_args);
  can_create = λ path. true;
  can_write = λ i. true;
}

abbrev bin_args : List Bytes
bin_args = (b'-' ∷ b'-' ∷ b'b' ∷ b'i' ∷ b'n' ∷ []) ∷ elf_name ∷ elf_name ∷ []

bin_args_lem : Qhex.parse_args bin_args none none ≡ Qhex.parsed (some elf_name) elf_name
unfolding Qhex.parse_args same_text
bin_args_lem = refl

reading : Converting reading_host bin_args (file_of false (Program.main host files elf_args))
reading = record {
  out = elf_name;
  hex_path = elf_name;
  understood = bin_args_lem;
  found = refl;
  bound = grants_bound;
  created = refl;
  all_written = λ k. refl;
}

both_tools_example : Makes reading_host bin_args (chosen false elf_memories)
both_tools_example =
    main-Makes host files elf_args elf_options elf_name elf_bytes elf_memories elf_args_lem refl
      refl elf_bytes-AreBytes (omega arith) (omega arith) (omega arith) (λ n. refl) elf_loads refl
      refl false reading_host bin_args reading

-- A magnitude that does not fit, with a sign.
abbrev too_low : Bytes
too_low =
    b'-' ∷ b'1' ∷ b'8' ∷ b'4' ∷ b'4' ∷ b'6' ∷ b'7' ∷ b'4' ∷ b'4' ∷ b'0' ∷ b'7' ∷ b'3' ∷ b'7' ∷ b'0'
    ∷ b'9' ∷ b'5' ∷ b'5' ∷ b'1' ∷ b'6' ∷ b'1' ∷ b'7' ∷ []

strtoul-too_low : strtoul too_low ≡ 18446744073709551615
unfolding strtoul skip_space take_sign to_ulong auto_number leading_digits number_from digit_in
strtoul-too_low = refl
