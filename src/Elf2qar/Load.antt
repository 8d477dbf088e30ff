-- ===== src/Elf2qar/Load.antt =====
-- The segment loop of `main` in devkit/tools/elf2qar/main.c.
pub mod Expected
pub mod Rounds
pub mod Refines
use qar_mvp.Prelude.{
  ℕ, zero, suc, ◌+◌, ◌-◌, Bool, not, ◌||◌, Option, none, some, Bytes, ltb, ◌==◌, if◌then◌else◌,
}
use qar_mvp.Libc.Stream.{File, fread_object, fseek}
use qar_mvp.Elf2qar.Image.{ImageT, image_store}
use qar_mvp.Elf2qar.Elf.{Phdr, phdr_of, phdr_size, pt_load}

-- The host: the sizes in bytes that are granted, and the offsets that can be sought.
pub record Host : Type 0 where
  pub can_alloc : ℕ → Bool
  pub can_seek : ℕ → Bool

-- The file and the two images between two rounds.
pub record Loader : Type 0 where
  pub elf : File
  pub imem : ImageT
  pub dmem : ImageT

-- The returns of 1 out of the loop; `overrun` is a `memcpy` that C leaves undefined.
pub data Failure : Type 0 where
  phdr_not_read : ℕ → Failure
  no_memory : Failure
  segment_not_found : Failure
  segment_not_read : Failure
  overrun : Failure

pub data Loaded : Type 0 where
  ok : Loader → Loaded
  stopped : Failure → Loaded

-- `fseek` without a look at its result.
unfoldable pub seek_back : Host → ℕ → File → File
seek_back h offset f = if h.can_seek offset then fseek offset f else f

abbrev pub data_base : ℕ
data_base = 0x20000000

-- The store to the one or the other image.
unfoldable pub place : Phdr → Bytes → Loader → Option Loader
place phdr segment l =
    if ltb phdr.p_vaddr data_base
    then elim (image_store l.imem phdr.p_vaddr segment phdr.p_filesz) [
      | none ↦ none
      | some img ↦ some (record l { imem = img })
    ]
    else elim (image_store l.dmem (phdr.p_vaddr - data_base) segment phdr.p_filesz) [
      | none ↦ none
      | some img ↦ some (record l { dmem = img })
    ]

abbrev placed : Option Loader → Loaded
placed none = stopped overrun
placed (some l) = ok l

-- From `fread(segment, ...)` on, at the segment's data; `curr` is the position to return to.
unfoldable pub read_segment : Host → Phdr → ℕ → Loader → Loaded
read_segment h phdr curr l = elim (fread_object phdr.p_filesz l.elf) [
  | none ↦ stopped segment_not_read
  | some (segment, elf) ↦ placed (place phdr segment (record l { elf = seek_back h curr elf }))
]

-- From the test on the type on, behind the program header.
unfoldable pub load_segment : Host → Phdr → Loader → Loaded
load_segment h phdr l =
    if not (phdr.p_type == pt_load) || phdr.p_filesz == 0
    then ok l
    else if not (h.can_alloc phdr.p_filesz)
    then stopped no_memory
    else if not (h.can_seek phdr.p_offset)
    then stopped segment_not_found
    else read_segment h phdr l.elf.position (record l { elf = fseek phdr.p_offset l.elf })

-- Round `i`.
unfoldable pub load_round : Host → ℕ → Loader → Loaded
load_round h i l = elim (fread_object phdr_size l.elf) [
  | none ↦ stopped (phdr_not_read i)
  | some (bytes, elf) ↦ load_segment h (phdr_of bytes) (record l { elf = elf })
]

-- `left` rounds, from round `i` on.
unfoldable pub load_segments : Host → ℕ → ℕ → Loader → Loaded
load_segments h zero i l = ok l
load_segments h (suc left) i l = elim (load_round h i l) [
  | stopped e ↦ stopped e
  | ok l' ↦ load_segments h left (i + 1) l'
]
