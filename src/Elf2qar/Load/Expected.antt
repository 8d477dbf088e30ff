-- ===== src/Elf2qar/Load/Expected.antt =====
-- What the segment loop is to do, said of the file as a whole: each program header is looked at in
-- its place in the table, and the bytes of a loadable segment are laid over one of two memories.
use qar_mvp.Prelude.{
  ℕ, zero, suc, ◌+◌, ◌-◌, ◌*◌, Bool, not, ◌&&◌, Option, Bytes, ltb, leb, ◌==◌, if◌then◌else◌,
  length, take, drop, get_elem?,
}
use qar_mvp.Elf2qar.Elf.{Phdr, phdr_of}
use qar_mvp.Elf2qar.Load.{
  Host, Failure, phdr_not_read, no_memory, segment_not_found, segment_not_read,
}

-- A memory by its bytes.
abbrev pub Memory : Type 0
Memory = ℕ → Option ℕ

-- The memory of `words` words when the segment is laid over it at an address, if it fits as a
-- whole.
abbrev pub laid : ℕ → ℕ → Bytes → Memory → Memory
laid words addr segment old = λ a.
    if leb (addr + length segment) (4 * words) && (leb addr a && ltb a (addr + length segment))
    then get_elem? segment (a - addr)
    else old a

-- The header at an offset, and the bytes of its segment.
abbrev pub header : Bytes → ℕ → Phdr
header content offset = phdr_of (take 32 (drop offset content))

abbrev pub segment_of : Bytes → Phdr → Bytes
segment_of content p = take p.p_filesz (drop p.p_offset content)

abbrev pub is_loadable : Phdr → Bool
is_loadable p = p.p_type == 1 && not (p.p_filesz == 0)

-- Addresses below 0x20000000 are those of the program memory.
abbrev pub both_laid : ℕ → ℕ → Phdr → Bytes → Memory × Memory → Memory × Memory
both_laid imem_words dmem_words p segment m =
    if ltb p.p_vaddr 0x20000000
    then (laid imem_words p.p_vaddr segment m.0, m.1)
    else (m.0, laid dmem_words (p.p_vaddr - 0x20000000) segment m.1)

pub data Expected : Type 0 where
  loads : Memory × Memory → Expected
  fails : Failure → Expected

module _ (h : Host) (imem_words dmem_words : ℕ) (content : Bytes) where
  -- What is to become of a segment: the first condition that it does not meet, or the memories
  -- with its bytes.
  abbrev pub expected_segment : Phdr → Memory × Memory → Expected
  expected_segment p m =
      if not (h.can_alloc p.p_filesz)
      then fails no_memory
      else if not (h.can_seek p.p_offset)
      then fails segment_not_found
      else if ltb (length content) (p.p_offset + p.p_filesz)
      then fails segment_not_read
      else loads (both_laid imem_words dmem_words p (segment_of content p) m)

  -- What header `i`, which stands at an offset, is to come to.
  abbrev pub expected_round : ℕ → ℕ → Memory × Memory → Expected
  expected_round i offset m =
      if ltb (length content) (offset + 32)
      then fails (phdr_not_read i)
      else if is_loadable (header content offset)
      then expected_segment (header content offset) m
      else loads m

  -- `left` headers from header `i` on, which stands at an offset.
  unfoldable pub expected : ℕ → ℕ → ℕ → Memory × Memory → Expected
  expected zero i offset m = loads m
  expected (suc left) i offset m = elim (expected_round i offset m) [
    | fails e ↦ fails e
    | loads m' ↦ expected left (i + 1) (offset + 32) m'
  ]
