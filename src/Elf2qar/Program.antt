-- ===== src/Elf2qar/Program.antt =====
-- `main` of devkit/tools/elf2qar/main.c around the segment loop.
pub mod Arguments
pub mod Verdict
pub mod Whole
pub mod Defined
use qar_mvp.Prelude.{
  ℕ, Bool, not, Option, none, some, List, [], ◌∷◌, ◌==◌, if◌then◌else◌, Bytes, u32,
}
use qar_mvp.Libc.Scan.{strtoul}
use qar_mvp.Libc.Stream.{File, fread_object, fseek, same_text}
use qar_mvp.Elf2qar.Image.{
  ImageT, image_init, HexFile, text, not_opened, undefined, image_write_hex,
}
use qar_mvp.Elf2qar.Elf.{Ehdr, ehdr_size, ehdr_of, em_riscv, has_magic}
use qar_mvp.Elf2qar.Load.{Host, Loaded, ok, stopped, Failure, load_segments}

abbrev pub dash_elf : Bytes
dash_elf = b'-' ∷ b'-' ∷ b'e' ∷ b'l' ∷ b'f' ∷ []

abbrev pub dash_program : Bytes
dash_program = b'-' ∷ b'-' ∷ b'p' ∷ b'r' ∷ b'o' ∷ b'g' ∷ b'r' ∷ b'a' ∷ b'm' ∷ []

abbrev pub dash_data : Bytes
dash_data = b'-' ∷ b'-' ∷ b'd' ∷ b'a' ∷ b't' ∷ b'a' ∷ []

abbrev pub dash_imem : Bytes
dash_imem = b'-' ∷ b'-' ∷ b'i' ∷ b'm' ∷ b'e' ∷ b'm' ∷ []

abbrev pub dash_dmem : Bytes
dash_dmem = b'-' ∷ b'-' ∷ b'd' ∷ b'm' ∷ b'e' ∷ b'm' ∷ []

pub record Options : Type 0 where
  pub elf_path : Option Bytes
  pub program_hex : Bytes
  pub data_hex : Bytes
  pub imem_words : ℕ
  pub dmem_words : ℕ

abbrev pub default_options : Options
default_options = record {
  elf_path = none;
  program_hex = b'p' ∷ b'r' ∷ b'o' ∷ b'g' ∷ b'r' ∷ b'a' ∷ b'm' ∷ b'.' ∷ b'h' ∷ b'e' ∷ b'x' ∷ [];
  data_hex = b'd' ∷ b'a' ∷ b't' ∷ b'a' ∷ b'.' ∷ b'h' ∷ b'e' ∷ b'x' ∷ [];
  imem_words = 64;
  dmem_words = 64;
}

-- An option and its argument; `none` is a call of `usage`.
unfoldable pub set_option : Bytes → Bytes → Options → Option Options
set_option a v o =
    if same_text a dash_elf
    then some (record o { elf_path = some v })
    else if same_text a dash_program
    then some (record o { program_hex = v })
    else if same_text a dash_data
    then some (record o { data_hex = v })
    else if same_text a dash_imem
    then some (record o { imem_words = u32 (strtoul v) })
    else if same_text a dash_dmem
    then some (record o { dmem_words = u32 (strtoul v) })
    else none

-- The loop over the arguments behind the program's name. A last argument alone is an option
-- without its argument or an unknown one, and both call `usage`.
unfoldable pub parse_options : List Bytes → Options → Option Options
parse_options [] o = some o
parse_options (a ∷ []) o = none
parse_options (a ∷ v ∷ rest) o = elim (set_option a v o) [
  | none ↦ none
  | some o' ↦ parse_options rest o'
]

-- The files that can be read, and those that can be created.
pub record Files : Type 0 where
  pub read_file : Bytes → Option Bytes
  pub can_create : Bytes → Bool

-- The ways that `main` ends. Only `written` is a return of 0, with the text of the two files;
-- `undefined_access` is an access that C leaves undefined.
pub data Exit : Type 0 where
  usage : Exit
  cannot_open : Exit
  no_header : Exit
  not_elf : Exit
  unsupported_machine : ℕ → Exit
  out_of_memory : Exit
  no_program_headers : Exit
  load_failed : Failure → Exit
  program_not_opened : Exit
  data_not_opened : Bytes → Exit
  undefined_access : Exit
  written : Bytes → Bytes → Exit

abbrev pub write_data : Bytes → HexFile → Exit
write_data program (text data_text) = written program data_text
write_data program not_opened = data_not_opened program
write_data program undefined = undefined_access

-- The two calls of `image_write_hex`.
abbrev pub write_both : HexFile → HexFile → Exit
write_both (text program) data_file = write_data program data_file
write_both not_opened data_file = program_not_opened
write_both undefined data_file = undefined_access

-- Behind the loop.
abbrev pub finish : Files → Options → Loaded → Exit
finish files o (stopped e) = load_failed e
finish files o (ok l) =
    write_both (image_write_hex (files.can_create o.program_hex) l.imem)
      (image_write_hex (files.can_create o.data_hex) l.dmem)

-- From the `fseek` to the program headers on.
unfoldable pub convert : Host → Files → Options → Ehdr → File → ImageT → ImageT → Exit
convert h files o ehdr elf imem dmem =
    if h.can_seek ehdr.e_phoff
    then finish files o (
        load_segments h ehdr.e_phnum 0
          (record { elf = fseek ehdr.e_phoff elf; imem = imem; dmem = dmem }))
    else no_program_headers

-- The two calls of `image_init`.
unfoldable pub allocate : Host → Files → Options → Ehdr → File → Exit
allocate h files o ehdr elf = elim (image_init h.can_alloc 0 o.imem_words) [
  | none ↦ out_of_memory
  | some imem ↦ elim (image_init h.can_alloc 0 o.dmem_words) [
    | none ↦ out_of_memory
    | some dmem ↦ convert h files o ehdr elf imem dmem
  ]
]

-- The tests on the header.
unfoldable pub check_header : Host → Files → Options → Ehdr → File → Exit
check_header h files o ehdr elf =
    if not (has_magic ehdr)
    then not_elf
    else if not (ehdr.e_machine == em_riscv)
    then unsupported_machine ehdr.e_machine
    else allocate h files o ehdr elf

-- From the `fread` of the header on.
unfoldable pub read_header : Host → Files → Options → File → Exit
read_header h files o f = elim (fread_object ehdr_size f) [
  | none ↦ no_header
  | some (bytes, elf) ↦ check_header h files o (ehdr_of bytes) elf
]

-- The `fopen` of the ELF file.
abbrev pub open_elf : Host → Files → Options → Option Bytes → Exit
open_elf h files o none = cannot_open
open_elf h files o (some bytes) = read_header h files o (record { content = bytes; position = 0 })

abbrev pub with_options : Host → Files → Options → Option Bytes → Exit
with_options h files o none = usage
with_options h files o (some path) = open_elf h files o (files.read_file path)

abbrev pub with_parsed : Host → Files → Option Options → Exit
with_parsed h files none = usage
with_parsed h files (some o) = with_options h files o o.elf_path

unfoldable pub main : Host → Files → List Bytes → Exit
main h files args = with_parsed h files (parse_options args default_options)
