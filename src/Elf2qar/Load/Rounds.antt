-- ===== src/Elf2qar/Load/Rounds.antt =====
-- One round of the segment loop: a store of a segment is defined, and is what the file says.
use mathlib.Core.Path.{fun_ext}
use qar_mvp.Prelude.{
  ℕ, zero, suc, ◌+◌, ◌-◌, ◌^◌, ◌<◌, ◌≡◌, refl, ap, ◌∙◌, some, [], ◌∷◌, ltb, Bytes, AreBytes, IsByte,
  length, get_elem?, get_or, arith, Bool-cases, inl, inr,
}
use qar_mvp.Elf2qar.Image.{ImageT}
use qar_mvp.Elf2qar.Image.Store.{IsValid, Stores, image_store_lem}
use qar_mvp.Elf2qar.Elf.{Phdr, phdr_of, le16, le32}
use qar_mvp.Elf2qar.Load.{Loader, place}
use qar_mvp.Elf2qar.Load.Expected.{Memory, laid, both_laid}

-- The two images are valid, start at address 0 and have these numbers of words.
pub record Sound (imem_words dmem_words : ℕ) (imem dmem : ImageT) : Type 0 where
  pub imem_valid : IsValid imem
  pub dmem_valid : IsValid dmem
  pub imem_base : imem.base_addr ≡ 0
  pub dmem_base : dmem.base_addr ≡ 0
  pub imem_size : imem.size_words ≡ imem_words
  pub dmem_size : dmem.size_words ≡ dmem_words

abbrev pub memories : Loader → Memory × Memory
memories l = (get_elem? l.imem.buffer, get_elem? l.dmem.buffer)

get_or-IsByte : (bs : Bytes) (i : ℕ) → AreBytes bs → IsByte (get_or bs i 0)
get_or-IsByte [] i h = omega arith
get_or-IsByte (b ∷ bs) zero h = h.0
get_or-IsByte (b ∷ bs) (suc i) h = get_or-IsByte bs i h.1

-- A field of a header is a 32-bit number.
le32-lt : (bs : Bytes) (i : ℕ) → AreBytes bs → le32 bs i < 2 ^ 32
unfolding le32 le16
le32-lt bs i h = omega (
  arith,
  get_or-IsByte bs i h,
  get_or-IsByte bs (i + 1) h,
  get_or-IsByte bs (i + 2) h,
  get_or-IsByte bs (i + 2 + 1) h,
)

pub p_vaddr-lt : (bs : Bytes) → AreBytes bs → (phdr_of bs).p_vaddr < 2 ^ 32
unfolding phdr_of
p_vaddr-lt bs h = le32-lt bs 8 h

-- A store in an image that starts at address 0.
Stores-laid :
    (words : ℕ) (img img' : ImageT) (addr : ℕ) (segment : Bytes)
    → img.base_addr ≡ 0
    → img.size_words ≡ words
    → Stores img img' addr segment
    → get_elem? img'.buffer ≡ laid words addr segment (get_elem? img.buffer)
Stores-laid words img img' addr segment base size st = fun_ext λ a. st.holds a ∙ ground arith

module _ (imem_words dmem_words : ℕ) where
  -- What a segment that was read whole does to the images.
  pub record Places (p : Phdr) (segment : Bytes) (l : Loader) : Type 0 where
    pub after : Loader
    pub runs : place p segment l ≡ some after
    pub sound : Sound imem_words dmem_words after.imem after.dmem
    pub same_elf : after.elf ≡ l.elf
    pub result : memories after ≡ both_laid imem_words dmem_words p segment (memories l)

  pub place-Places :
      (p : Phdr) (segment : Bytes) (l : Loader)
      → Sound imem_words dmem_words l.imem l.dmem
      → AreBytes segment
      → length segment ≡ p.p_filesz
      → p.p_vaddr < 2 ^ 32
      → length segment < 2 ^ 29
      → Places p segment l
  unfolding place
  place-Places p segment l s bytes whole addr small = elim (Bool-cases (ltb p.p_vaddr 0x20000000)) [
    | inl low ↦
        let (img, runs, st) =
          image_store_lem l.imem p.p_vaddr segment s.imem_valid bytes (ground arith) in
        record {
          after = record l { imem = img };
          runs = rw (low, ← whole, runs, place) refl;
          sound = record {
            imem_valid = st.valid;
            dmem_valid = s.dmem_valid;
            imem_base = st.same_base ∙ s.imem_base;
            dmem_base = s.dmem_base;
            imem_size = st.same_size ∙ s.imem_size;
            dmem_size = s.dmem_size;
          };
          same_elf = refl;
          result = rw low (
              ap (λ (m : Memory). (m, get_elem? l.dmem.buffer))
                (Stores-laid imem_words l.imem img p.p_vaddr segment s.imem_base s.imem_size st));
        }
    | inr high ↦
        let (img, runs, st) =
          image_store_lem l.dmem (p.p_vaddr - 0x20000000) segment s.dmem_valid bytes
            (ground arith) in
        record {
          after = record l { dmem = img };
          runs = rw (high, ← whole, runs, place) refl;
          sound = record {
            imem_valid = s.imem_valid;
            dmem_valid = st.valid;
            imem_base = s.imem_base;
            dmem_base = st.same_base ∙ s.dmem_base;
            imem_size = s.imem_size;
            dmem_size = st.same_size ∙ s.dmem_size;
          };
          same_elf = refl;
          result = rw high (
              ap (λ (m : Memory). (get_elem? l.imem.buffer, m))
                (Stores-laid dmem_words l.dmem img (p.p_vaddr - 0x20000000) segment s.dmem_base
                  s.dmem_size st));
        }
  ]
