-- ===== src/Pipeline/Whole.antt =====
-- The two tools one after the other: `main` of elf2qar, and `main` of qhex on a file that it wrote.
use qar_mvp.Prelude.{
  ℕ, ◌*◌, ◌^◌, ◌<◌, ◌≡◌, ap, ◌∙◌, Bool, true, false, Option, none, some, List, [], Bytes, AreBytes,
  length, get_elem?, load_words, if◌then◌else◌, ◌⊎◌,
}
use qar_mvp.Pipeline.{content-hex_text, load_words-IsU32, image_bytes-load_words}
use qar_mvp.Qhex.Binary.{wrote}
use qar_mvp.Qhex.Binary.Laws.{outcome-wrote}
use qar_mvp.Qhex.Buffer.Growth.{Grants}
use qar_mvp.Qhex.Program as Qhex
use qar_mvp.Qhex.Program.Whole.{RanOut, report_of, main-Emits}
use qar_mvp.Elf2qar.Image.Hex.{hex_text}
use qar_mvp.Elf2qar.Load.{Host}
use qar_mvp.Elf2qar.Load.Expected.{Memory, loads}
use qar_mvp.Elf2qar.Program as Elf
use qar_mvp.Elf2qar.Program.{Files, Options}
use qar_mvp.Elf2qar.Program.Verdict.{converts, verdict, Prints}
use qar_mvp.Elf2qar.Program.Whole.{main-Meets}

-- A run of qhex that is to make an image of a file: what it is asked for, and that the host lets it.
pub record Converting (h : Qhex.Host) (args : List Bytes) (file : Option Bytes) : Type 0 where
  pub out : Bytes
  pub hex_path : Bytes
  pub understood : Qhex.parse_args args none none ≡ Qhex.parsed (some out) hex_path
  pub found : h.read_file hex_path ≡ file
  pub bound : (n : ℕ) → h.can_alloc n ≡ true → n < 2 ^ 63
  pub created : h.can_create out ≡ true
  pub all_written : (k : ℕ) → h.can_write k ≡ true

qhex_main-hex_text :
    (h : Qhex.Host) (args : List Bytes) (n : ℕ) (bs : Bytes)
    → Converting h args (some (hex_text (load_words bs)))
    → length bs ≡ 4 * n
    → AreBytes bs
    → ((Qhex.main h args ≡ Qhex.converted (report_of (load_words bs)) bs)
        × Grants h.can_alloc (length (load_words bs)))
      ⊎ RanOut h (length (load_words bs)) (Qhex.main h args)
qhex_main-hex_text h args n bs c sized bytes =
    let ws = load_words bs in
    let written =
      outcome-wrote h.can_write ws 0 [] c.all_written
      ∙ ap wrote (image_bytes-load_words n bs sized bytes) in
    let emits =
      rw (content-hex_text 0 ws (load_words-IsU32 bs bytes), c.created, written) at
        (main-Emits h args (some c.out) c.hex_path (hex_text ws) c.understood c.found c.bound) in
    emits

-- Of the two memories, and of the two files.
abbrev pub chosen : {A : Type 0} → Bool → A × A → A
chosen is_data p = if is_data then p.1 else p.0

-- A file that elf2qar wrote.
abbrev pub file_of : Bool → Elf.Exit → Option Bytes
file_of is_data (Elf.written program_text data_text) =
    some (chosen is_data (program_text, data_text))
file_of is_data _ = none

-- The image holds a memory; and qhex writes it and reports on its words, with every allocation for them
-- granted, or runs out of memory, with one of them refused.
pub record Makes (h : Qhex.Host) (args : List Bytes) (m : Memory) : Type 0 where
  pub image : Bytes
  pub holds : get_elem? image ≡ m
  pub ends :
      ((Qhex.main h args ≡ Qhex.converted (report_of (load_words image)) image)
        × Grants h.can_alloc (length (load_words image)))
      ⊎ RanOut h (length (load_words image)) (Qhex.main h args)

Prints-Makes :
    (files : Files) (o : Options) (exit : Elf.Exit) (m : Memory × Memory)
    → Prints files o exit m
    → files.can_create o.program_hex ≡ true
    → files.can_create o.data_hex ≡ true
    → (is_data : Bool) (qhex_host : Qhex.Host) (qhex_args : List Bytes)
    → Converting qhex_host qhex_args (file_of is_data exit)
    → Makes qhex_host qhex_args (chosen is_data m)
Prints-Makes files o exit m p cp cd false qh qargs c = record {
  image = p.program;
  holds = ap (λ (x : Memory × Memory). x.0) p.contents;
  ends =
      qhex_main-hex_text qh qargs o.imem_words p.program (rw (p.ends, cp, cd) at c) p.program_size
        p.program_AreBytes;
}
Prints-Makes files o exit m p cp cd true qh qargs c = record {
  image = p.data_bytes;
  holds = ap (λ (x : Memory × Memory). x.1) p.contents;
  ends =
      qhex_main-hex_text qh qargs o.dmem_words p.data_bytes (rw (p.ends, cp, cd) at c) p.data_size
        p.data_AreBytes;
}

-- On an ELF file of bytes that is read, is shorter than 2 ^ 29, can be sought at every offset and whose
-- segments all load, with both memories below 2 ^ 32 bytes and both hex files created: qhex, run on
-- either of the two files to make an image, with no allocation of 2 ^ 63 bytes or more granted and every
-- write a success, writes the bytes of that memory and reports on its words, and then `realloc` granted
-- every size that these need; or it runs out of memory, and then `realloc` refused one of these sizes.
pub main-Makes :
    (h : Host) (files : Files) (args : List Bytes) (o : Options) (path content : Bytes)
    (m : Memory × Memory)
    → Elf.parse_options args Elf.default_options ≡ some o
    → o.elf_path ≡ some path
    → files.read_file path ≡ some content
    → AreBytes content
    → length content < 2 ^ 29
    → 4 * o.imem_words < 2 ^ 32
    → 4 * o.dmem_words < 2 ^ 32
    → ((n : ℕ) → h.can_seek n ≡ true)
    → verdict h o content ≡ converts (loads m)
    → files.can_create o.program_hex ≡ true
    → files.can_create o.data_hex ≡ true
    → (is_data : Bool) (qhex_host : Qhex.Host) (qhex_args : List Bytes)
    → Converting qhex_host qhex_args (file_of is_data (Elf.main h files args))
    → Makes qhex_host qhex_args (chosen is_data m)
main-Makes h files args o path content m parsed named found bytes small si sd seeks loaded cp cd
      is_data qh qargs c =
    Prints-Makes files o (Elf.main h files args) m
      (rw loaded at
        (main-Meets h files args o path content parsed named found bytes small si sd seeks))
      cp cd is_data qh qargs c
