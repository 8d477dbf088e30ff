-- ===== src/Elf2qar/Elf.antt =====
-- `Elf32_Ehdr` and `Elf32_Phdr` of devkit/tools/elf2qar/main.c, as `fread` fills them on a
-- little-endian host with C's natural layout.
use qar_mvp.Prelude.{ℕ, ◌+◌, ◌*◌, Bool, ◌&&◌, Bytes, ◌==◌, take, get_or}

-- The two and the four bytes at an offset.
unfoldable pub le16 : Bytes → ℕ → ℕ
le16 bs i = get_or bs i 0 + get_or bs (i + 1) 0 * 256

unfoldable pub le32 : Bytes → ℕ → ℕ
le32 bs i = le16 bs i + le16 bs (i + 2) * 65536

pub record Ehdr : Type 0 where
  pub e_ident : Bytes
  pub e_type : ℕ
  pub e_machine : ℕ
  pub e_version : ℕ
  pub e_entry : ℕ
  pub e_phoff : ℕ
  pub e_shoff : ℕ
  pub e_flags : ℕ
  pub e_ehsize : ℕ
  pub e_phentsize : ℕ
  pub e_phnum : ℕ
  pub e_shentsize : ℕ
  pub e_shnum : ℕ
  pub e_shstrndx : ℕ

-- `sizeof(Elf32_Ehdr)`
abbrev pub ehdr_size : ℕ
ehdr_size = 52

unfoldable pub ehdr_of : Bytes → Ehdr
ehdr_of bs = record {
  e_ident = take 16 bs;
  e_type = le16 bs 16;
  e_machine = le16 bs 18;
  e_version = le32 bs 20;
  e_entry = le32 bs 24;
  e_phoff = le32 bs 28;
  e_shoff = le32 bs 32;
  e_flags = le32 bs 36;
  e_ehsize = le16 bs 40;
  e_phentsize = le16 bs 42;
  e_phnum = le16 bs 44;
  e_shentsize = le16 bs 46;
  e_shnum = le16 bs 48;
  e_shstrndx = le16 bs 50;
}

pub record Phdr : Type 0 where
  pub p_type : ℕ
  pub p_offset : ℕ
  pub p_vaddr : ℕ
  pub p_paddr : ℕ
  pub p_filesz : ℕ
  pub p_memsz : ℕ
  pub p_flags : ℕ
  pub p_align : ℕ

-- `sizeof(Elf32_Phdr)`
abbrev pub phdr_size : ℕ
phdr_size = 32

unfoldable pub phdr_of : Bytes → Phdr
phdr_of bs = record {
  p_type = le32 bs 0;
  p_offset = le32 bs 4;
  p_vaddr = le32 bs 8;
  p_paddr = le32 bs 12;
  p_filesz = le32 bs 16;
  p_memsz = le32 bs 20;
  p_flags = le32 bs 24;
  p_align = le32 bs 28;
}

abbrev pub pt_load : ℕ
pt_load = 1

abbrev pub em_riscv : ℕ
em_riscv = 243

-- The four comparisons on `e_ident`.
unfoldable pub has_magic : Ehdr → Bool
has_magic ehdr =
    get_or ehdr.e_ident 0 0 == 0x7f
    && get_or ehdr.e_ident 1 0 == b'E'
    && get_or ehdr.e_ident 2 0 == b'L'
    && get_or ehdr.e_ident 3 0 == b'F'
