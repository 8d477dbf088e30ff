-- ===== src/Elf2qar/Program/Verdict.antt =====
-- What `main` of devkit/tools/elf2qar/main.c is to make of an ELF file.
use qar_mvp.Prelude.{
  ℕ, AreBytes, ◌*◌, ◌≡◌, Bool, true, false, not, ◌&&◌, ◌==◌, ltb, if◌then◌else◌, Bytes, length,
  get_elem?, take, replicate, load_words,
}
use qar_mvp.Elf2qar.Image.Hex.{hex_text}
use qar_mvp.Elf2qar.Elf.{ehdr_of, has_magic}
use qar_mvp.Elf2qar.Load.{Host}
use qar_mvp.Elf2qar.Load.Expected.{Memory, Expected, loads, fails, expected}
use qar_mvp.Elf2qar.Program.{
  Options, Files, Exit, no_header, not_elf, unsupported_machine, out_of_memory, load_failed,
  program_not_opened, data_not_opened, written,
}

-- A memory of zeros.
abbrev pub zeros : ℕ → Memory
zeros words = get_elem? (replicate (4 * words) 0)

-- What is to become of a file: an exit that its header or the allocator calls for, or what its
-- segments come to.
pub data Verdict : Type 0 where
  exits : Exit → Verdict
  converts : Expected → Verdict

abbrev pub verdict : Host → Options → Bytes → Verdict
verdict h o content =
    let ehdr = ehdr_of (take 52 content) in
    if ltb (length content) 52
    then exits no_header
    else if not (has_magic ehdr)
    then exits not_elf
    else if not (ehdr.e_machine == 243)
    then exits (unsupported_machine ehdr.e_machine)
    else if not (h.can_alloc (o.imem_words * 4) && h.can_alloc (o.dmem_words * 4))
    then exits out_of_memory
    else converts (
        expected h o.imem_words o.dmem_words content ehdr.e_phnum 0 ehdr.e_phoff
          (zeros o.imem_words, zeros o.dmem_words))

-- The exit when both images are printed, by which of the two files can be created.
abbrev pub printed : Bool → Bool → Bytes → Bytes → Exit
printed false create_data program data_text = program_not_opened
printed true false program data_text = data_not_opened program
printed true true program data_text = written program data_text

-- The two memories, as the bytes that are printed.
pub record Prints (files : Files) (o : Options) (exit : Exit) (m : Memory × Memory) : Type 0 where
  pub program : Bytes
  pub data_bytes : Bytes
  pub program_AreBytes : AreBytes program
  pub data_AreBytes : AreBytes data_bytes
  pub program_size : length program ≡ 4 * o.imem_words
  pub data_size : length data_bytes ≡ 4 * o.dmem_words
  pub contents : (get_elem? program, get_elem? data_bytes) ≡ m
  pub ends :
      exit
      ≡ printed
          (files.can_create o.program_hex)
          (files.can_create o.data_hex)
          (hex_text (load_words program))
          (hex_text (load_words data_bytes))

abbrev pub Meets : Files → Options → Exit → Verdict → Type 0
Meets files o exit (exits e) = exit ≡ e
Meets files o exit (converts (fails e)) = exit ≡ load_failed e
Meets files o exit (converts (loads m)) = Prints files o exit m
