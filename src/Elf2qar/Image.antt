-- ===== src/Elf2qar/Image.antt =====
-- `image_t` of devkit/tools/elf2qar/main.c, with `image_init`, `image_store` and `image_write_hex`.
pub mod Store
pub mod Hex
use qar_mvp.Prelude.{
  ℕ, zero, suc, ◌+◌, ◌-◌, ◌*◌, ◌^◌, Bool, true, false, ◌||◌, ◌&&◌, Option, none, some, List, [],
  ◌∷◌, ◌++◌, bit_or, ltb, leb, if◌then◌else◌, u32, ◌<<<◌, Bytes, length, take, drop, get_elem?,
  replicate,
}
use qar_mvp.Libc.Format.{format_08x}

infixl 5 ◌>>=◌
abbrev ◌>>=◌ : {A B : Type 0} → Option A → (A → Option B) → Option B
none >>= f = none
some a >>= f = f a

pub record ImageT : Type 0 where
  pub base_addr : ℕ
  pub size_words : ℕ
  pub addr_mask : ℕ
  pub buffer : Bytes

-- `none` where `calloc` returns the null pointer; `can_alloc` says which sizes in bytes are granted.
unfoldable pub image_init : (ℕ → Bool) → ℕ → ℕ → Option ImageT
image_init can_alloc base size_words =
    if can_alloc (size_words * 4)
    then some (record {
      base_addr = base;
      size_words = size_words;
      addr_mask = u32 (u32 (size_words * 4) + 2 ^ 32 - 1);
      buffer = replicate (size_words * 4) 0;
    })
    else none

-- `memcpy(memory + offset, data, len)`; `none` where C leaves it undefined: it reads behind the
-- data or writes behind the memory.
unfoldable pub memcpy : Bytes → ℕ → Bytes → ℕ → Option Bytes
memcpy memory offset bytes len =
    if leb len (length bytes) && leb (offset + len) (length memory)
    then some (take offset memory ++ (take len bytes ++ drop (offset + len) memory))
    else none

-- The test of `image_store`, whose sums wrap.
unfoldable pub out_of_range : ImageT → ℕ → ℕ → Bool
out_of_range img addr len =
    ltb addr img.base_addr || ltb (u32 (img.base_addr + img.size_words * 4)) (u32 (addr + len))

-- `none` where the `memcpy` is undefined.
unfoldable pub image_store : ImageT → ℕ → Bytes → ℕ → Option ImageT
image_store img addr bytes len =
    if out_of_range img addr len
    then some img
    else elim (memcpy img.buffer (addr - img.base_addr) bytes len) [
      | none ↦ none
      | some b ↦ some (record img { buffer = b })
    ]

-- The word of four bytes, `none` where one of them is behind the memory.
unfoldable pub word_at : Bytes → ℕ → Option ℕ
word_at memory offset = do
  b0 ← get_elem? memory offset
  b1 ← get_elem? memory (u32 (offset + 1))
  b2 ← get_elem? memory (u32 (offset + 2))
  b3 ← get_elem? memory (u32 (offset + 3))
  some (u32 (bit_or (bit_or (bit_or b0 (b1 <<< 8)) (b2 <<< 16)) (b3 <<< 24)))

-- The lines from a word on, with `left` rounds to go.
unfoldable pub hex_lines : Bytes → ℕ → ℕ → Option Bytes
hex_lines memory zero word = some []
hex_lines memory (suc left) word = do
  value ← word_at memory (u32 (word * 4))
  rest ← hex_lines memory left (word + 1)
  some (format_08x value ++ (b'\n' ∷ rest))

-- What becomes of the hex file.
pub data HexFile : Type 0 where
  text : Bytes → HexFile
  not_opened : HexFile
  undefined : HexFile

abbrev hex_file : Option Bytes → HexFile
hex_file none = undefined
hex_file (some t) = text t

unfoldable pub image_write_hex : Bool → ImageT → HexFile
image_write_hex can_create img =
    if can_create then hex_file (hex_lines img.buffer img.size_words 0) else not_opened
