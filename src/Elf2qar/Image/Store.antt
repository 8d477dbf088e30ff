-- ===== src/Elf2qar/Image/Store.antt =====
-- `image_init` and `image_store`: which bytes are stored, and when the copy leaves the buffer.
use qar_mvp.Prelude.{
  ℕ, ◌+◌, ◌-◌, ◌*◌, ◌%◌, ◌^◌, ◌≤◌, ◌<◌, ◌≡◌, refl, sym, ap, ◌∙◌, Bool, true, false, ◌&&◌, Option,
  none, some, ◌++◌, ltb, leb, if◌then◌else◌, u32, Bytes, AreBytes, All-append, All-take, All-drop,
  All-replicate, length, take, drop, get_elem?, length-append, length-take, length-drop,
  length-replicate, get_elem?-append_left, get_elem?-append_right, get_elem?-take, get_elem?-drop,
  take-all, replicate, arith, Bool-cases, inl, inr, ◌⊎◌, IsByte,
}
use qar_mvp.Elf2qar.Image.{ImageT, image_init, memcpy, out_of_range, image_store}

-- The buffer has four bytes for each word, and the addresses behind the image do not wrap.
pub record IsValid (img : ImageT) : Type 0 where
  pub sized : length img.buffer ≡ 4 * img.size_words
  pub bytes : AreBytes img.buffer
  pub below : img.base_addr + 4 * img.size_words < 2 ^ 32

-- A fresh image is valid, and every byte of it is zero.
pub image_init-IsValid :
    (can_alloc : ℕ → Bool) (base size_words : ℕ)
    → base + 4 * size_words < 2 ^ 32
    → (image_init can_alloc base size_words ≡ none)
      ⊎ ((img : ImageT) × (image_init can_alloc base size_words ≡ some img)
          × IsValid img
          × (img.size_words ≡ size_words)
          × (img.base_addr ≡ base)
          × (img.buffer ≡ replicate (4 * size_words) 0))
unfolding image_init
image_init-IsValid can_alloc base size_words small =
    elim (Bool-cases (can_alloc (size_words * 4))) [
      | inl e ↦ rw e (
          inr (
            _,
            refl,
            record {
              sized = length-replicate (size_words * 4) 0 ∙ omega arith;
              bytes = All-replicate IsByte (size_words * 4) 0 (omega arith);
              below = small;
            },
            refl,
            refl,
            ap (λ (n : ℕ). replicate n 0) (omega arith),
          ))
      | inr e ↦ rw e (inl refl)
    ]

-- The bytes of a memory, when those of `data` are laid over it from `offset` on.
abbrev laid_over : Bytes → ℕ → Bytes → ℕ → Option ℕ
laid_over memory offset bytes i =
    if leb offset i && ltb i (offset + length bytes)
    then get_elem? bytes (i - offset)
    else get_elem? memory i

get_elem?-overlay :
    (memory bytes : Bytes) (offset i : ℕ)
    → offset + length bytes ≤ length memory
    → get_elem? (take offset memory ++ (bytes ++ drop (offset + length bytes) memory)) i
      ≡ laid_over memory offset bytes i
get_elem?-overlay memory bytes offset i h = elim (Bool-cases (leb offset i)) [
  | inr e ↦ rw e (
      get_elem?-append_left (take offset memory) _ i
        (omega (arith, length-take offset memory, before e))
      ∙ get_elem?-take offset i memory (before e))
  | inl e ↦ elim (Bool-cases (ltb i (offset + length bytes))) [
    | inl e' ↦
        rw (e, e')
          (at_offset (i - offset) (omega (arith, from e))
            ∙ get_elem?-append_left bytes _ (i - offset) (omega (arith, from e, until e')))
    | inr e' ↦
        rw (e, e')
          (at_offset (length bytes + (i - (offset + length bytes))) (omega (arith, behind e'))
            ∙ get_elem?-append_right bytes _ (length bytes) _ refl
            ∙ get_elem?-drop (offset + length bytes) _ memory
            ∙ ap (get_elem? memory) (omega (arith, behind e')))
  ]
]
  where
    at_offset :
        (j : ℕ)
        → offset + j ≡ i
        → get_elem? (take offset memory ++ (bytes ++ drop (offset + length bytes) memory)) i
          ≡ get_elem? (bytes ++ drop (offset + length bytes) memory) j
    at_offset j e =
        ap (get_elem? (take offset memory ++ (bytes ++ drop (offset + length bytes) memory)))
          (sym e)
        ∙ get_elem?-append_right (take offset memory) _ offset j
            (omega (arith, length-take offset memory))

    before : leb offset i ≡ false → i < offset
    before e = ground arith

    from : leb offset i ≡ true → offset ≤ i
    from e = ground arith

    until : ltb i (offset + length bytes) ≡ true → i < offset + length bytes
    until e = ground arith

    behind : ltb i (offset + length bytes) ≡ false → offset + length bytes ≤ i
    behind e = ground arith

-- What is at index `i` behind a store: the byte of the data, where the data lies in the image as a
-- whole and the index is among its own, and the old byte elsewhere.
abbrev pub stored_byte : ImageT → ℕ → Bytes → ℕ → Option ℕ
stored_byte img addr bytes i =
    if leb img.base_addr addr && leb (addr + length bytes) (img.base_addr + 4 * img.size_words)
    then laid_over img.buffer (addr - img.base_addr) bytes i
    else get_elem? img.buffer i

-- The image behind a store.
pub record Stores (img img' : ImageT) (addr : ℕ) (bytes : Bytes) : Type 0 where
  pub valid : IsValid img'
  pub same_base : img'.base_addr ≡ img.base_addr
  pub same_size : img'.size_words ≡ img.size_words
  pub holds : (i : ℕ) → get_elem? img'.buffer i ≡ stored_byte img addr bytes i

memcpy_lem :
    (memory bytes : Bytes) (offset : ℕ)
    → offset + length bytes ≤ length memory
    → memcpy memory offset bytes (length bytes)
      ≡ some (take offset memory ++ (bytes ++ drop (offset + length bytes) memory))
unfolding memcpy
memcpy_lem memory bytes offset h = rw (self, fits, memcpy, take-all bytes) refl
  where
    self : leb (length bytes) (length bytes) ≡ true
    self = ground arith

    fits : leb (offset + length bytes) (length memory) ≡ true
    fits = ground arith

-- Where the end address does not wrap, the test is the one that is meant.
range_cases :
    (img : ImageT) (addr len : ℕ)
    → IsValid img
    → addr + len < 2 ^ 32
    → ((out_of_range img addr len ≡ false)
        × (leb img.base_addr addr && leb (addr + len) (img.base_addr + 4 * img.size_words) ≡ true)
        × (img.base_addr ≤ addr)
        × (addr + len ≤ img.base_addr + 4 * img.size_words))
      ⊎ ((out_of_range img addr len ≡ true)
          × (leb img.base_addr addr && leb (addr + len) (img.base_addr + 4 * img.size_words)
              ≡ false))
unfolding out_of_range
range_cases img addr len v small = rw (whole, limit) ground arith
  where
    whole : (addr + len) % 2 ^ 32 ≡ addr + len
    whole = omega arith

    limit : (img.base_addr + img.size_words * 4) % 2 ^ 32 ≡ img.base_addr + 4 * img.size_words
    limit = omega (arith, v.below)

-- On a valid image, a store of bytes whose end address does not wrap is defined: it keeps the image valid, with
-- its base and size; bytes that lie in the image as a whole are put at their place and all others
-- keep their value, and bytes that do not are dropped.
pub image_store_lem :
    (img : ImageT) (addr : ℕ) (bytes : Bytes)
    → IsValid img
    → AreBytes bytes
    → addr + length bytes < 2 ^ 32
    → (img' : ImageT) × (image_store img addr bytes (length bytes) ≡ some img')
      × Stores img img' addr bytes
unfolding image_store
image_store_lem img addr bytes v b small = elim (range_cases img addr (length bytes) v small) [
  | inr (out, outside) ↦ (
    img,
    rw (out, image_store) refl,
    record { valid = v; same_base = refl; same_size = refl; holds = λ i. rw outside refl },
  )
  | inl (is_in, inside, low, high) ↦ (
    record img { buffer = laid },
    rw (is_in, image_store, memcpy_lem img.buffer bytes offset (fits low high)) refl,
    record {
      valid = record {
        sized = still_sized low high;
        bytes =
            All-append IsByte (take offset img.buffer) _ (All-take IsByte offset _ v.bytes)
              (All-append IsByte bytes _ b (All-drop IsByte (offset + length bytes) _ v.bytes));
        below = v.below;
      };
      same_base = refl;
      same_size = refl;
      holds = λ i. rw inside (get_elem?-overlay img.buffer bytes offset i (fits low high));
    },
  )
]
  where
    offset : ℕ
    offset = addr - img.base_addr

    laid : Bytes
    laid = take offset img.buffer ++ (bytes ++ drop (offset + length bytes) img.buffer)

    fits :
        img.base_addr ≤ addr
        → addr + length bytes ≤ img.base_addr + 4 * img.size_words
        → offset + length bytes ≤ length img.buffer
    fits low high = omega (arith, v.sized)

    still_sized :
        img.base_addr ≤ addr
        → addr + length bytes ≤ img.base_addr + 4 * img.size_words
        → length laid ≡ 4 * img.size_words
    still_sized low high = omega (
      arith,
      v.sized,
      length-append (take offset img.buffer) (bytes ++ drop (offset + length bytes) img.buffer),
      length-append bytes (drop (offset + length bytes) img.buffer),
      length-take offset img.buffer,
      length-drop (offset + length bytes) img.buffer,
    )

-- Where the end address wraps round to one in or below the image, the test lets the store through
-- and the copy leaves the buffer.
pub image_store_overrun :
    (img : ImageT) (addr : ℕ) (bytes : Bytes)
    → IsValid img
    → img.base_addr ≤ addr
    → 2 ^ 32 ≤ addr + length bytes
    → addr + length bytes ≤ 2 ^ 32 + img.base_addr + 4 * img.size_words
    → image_store img addr bytes (length bytes) ≡ none
unfolding image_store out_of_range memcpy
image_store_overrun img addr bytes v low wraps near =
    rw (low_enough, let_through, self, behind, image_store) refl
  where
    self : leb (length bytes) (length bytes) ≡ true
    self = ground arith

    low_enough : ltb addr img.base_addr ≡ false
    low_enough = ground arith

    let_through : ltb (u32 (img.base_addr + img.size_words * 4)) (u32 (addr + length bytes)) ≡ false
    let_through = ground (arith, v.below)

    behind : leb (addr - img.base_addr + length bytes) (length img.buffer) ≡ false
    behind = ground (arith, v.sized, v.below)
