-- ===== src/Elf2qar/Program/Whole.antt =====
-- The whole of elf2qar: `main` makes of an ELF file what its verdict is.
use mathlib.Core.Path.{subst}
use qar_mvp.Prelude.{
  ℕ, ◌*◌, ◌^◌, ◌<◌, ◌≡◌, ◌≢◌, refl, ap, ◌∙◌, Bool, true, false, not, ◌&&◌, Option, none, some, List,
  ◌==◌, ltb, if◌then◌else◌, Bytes, AreBytes, length, get_elem?, take, replicate, load_words, arith,
  Bool-cases, inl, inr,
}
use qar_mvp.Libc.Stream.{File, fseek}
use qar_mvp.Libc.Stream.Laws.{behind, fread_object-cases}
use qar_mvp.Elf2qar.Image.{ImageT, image_init, text, not_opened, image_write_hex}
use qar_mvp.Elf2qar.Image.Store.{IsValid, image_init-IsValid}
use qar_mvp.Elf2qar.Image.Hex.{hex_text, image_write_hex_lem}
use qar_mvp.Elf2qar.Elf.{Ehdr, ehdr_of, has_magic}
use qar_mvp.Elf2qar.Load.{Host, Loader, Loaded, ok, stopped, load_segments}
use qar_mvp.Elf2qar.Load.Expected.{Memory, Expected, loads, fails, expected}
use qar_mvp.Elf2qar.Load.Rounds.{Sound, memories}
use qar_mvp.Elf2qar.Load.Refines.{Matches, load_segments-Matches}
use qar_mvp.Elf2qar.Program.{
  Options, Files, out_of_memory, load_failed, parse_options, default_options, write_both, finish,
  convert, allocate, check_header, read_header, with_options, main,
}
use qar_mvp.Elf2qar.Program.Verdict.{zeros, exits, converts, verdict, printed, Prints, Meets}

-- An image is printed, or its file cannot be created.
image_write_hex-cases :
    (create : Bool) (img : ImageT)
    → IsValid img
    → image_write_hex create img
      ≡ (if create then text (hex_text (load_words img.buffer)) else not_opened)
image_write_hex-cases true img v = (image_write_hex_lem img v).0
image_write_hex-cases false img v = unfold image_write_hex in refl

fresh :
    (can_alloc : ℕ → Bool) (words : ℕ)
    → can_alloc (words * 4) ≡ true
    → 4 * words < 2 ^ 32
    → (img : ImageT) × (image_init can_alloc 0 words ≡ some img)
      × IsValid img
      × (img.size_words ≡ words)
      × (img.base_addr ≡ 0)
      × (img.buffer ≡ replicate (4 * words) 0)
fresh can_alloc words granted small = elim (image_init-IsValid can_alloc 0 words (omega arith)) [
  | inr made ↦ made
  | inl failed ↦ absurd (
      let made : image_init can_alloc 0 words ≢ none = unfold image_init in rw granted (λ e. cc) in
      made failed)
]

not_granted :
    (can_alloc : ℕ → Bool) (words : ℕ)
    → can_alloc (words * 4) ≡ false
    → image_init can_alloc 0 words ≡ none
unfolding image_init
not_granted can_alloc words no_room = rw no_room refl

module _ (h : Host) (files : Files) (o : Options) where
  write_both-Prints :
      (l : Loader) (m : Memory × Memory)
      → Sound o.imem_words o.dmem_words l.imem l.dmem
      → memories l ≡ m
      → Prints files o (finish files o (ok l)) m
  write_both-Prints l m s same = record {
    program = l.imem.buffer;
    data_bytes = l.dmem.buffer;
    program_AreBytes = s.imem_valid.bytes;
    data_AreBytes = s.dmem_valid.bytes;
    program_size = s.imem_valid.sized ∙ ap (λ (n : ℕ). 4 * n) s.imem_size;
    data_size = s.dmem_valid.sized ∙ ap (λ (n : ℕ). 4 * n) s.dmem_size;
    contents = same;
    ends =
        rw
          (image_write_hex-cases _ l.imem s.imem_valid, image_write_hex-cases _ l.dmem s.dmem_valid)
          (by_created (files.can_create o.program_hex) (files.can_create o.data_hex) _ _);
  }
    where
      by_created :
          (p d : Bool) (t u : Bytes)
          → write_both (if p then text t else not_opened) (if d then text u else not_opened)
            ≡ printed p d t u
      by_created false d t u = refl
      by_created true false t u = refl
      by_created true true t u = refl

  finish-Meets :
      (content : Bytes) (offset : ℕ) (r : Loaded) (e : Expected)
      → Matches h o.imem_words o.dmem_words content offset r e
      → Meets files o (finish files o r) (converts e)
  finish-Meets content offset (ok l) (loads m) (at, same) = write_both-Prints l m at.sound same
  finish-Meets content offset (ok l) (fails e) m = absurd m
  finish-Meets content offset (stopped e) (loads m') m = absurd m
  finish-Meets content offset (stopped e) (fails e') m = ap load_failed m

  -- From the allocated images on.
  convert-Meets :
      (ehdr : Ehdr) (f : File) (imem dmem : ImageT)
      → Sound o.imem_words o.dmem_words imem dmem
      → ◌≡◌ {A = Memory × Memory}
          (get_elem? imem.buffer, get_elem? dmem.buffer)
          (zeros o.imem_words, zeros o.dmem_words)
      → AreBytes f.content
      → length f.content < 2 ^ 29
      → ((n : ℕ) → h.can_seek n ≡ true)
      → Meets files o (convert h files o ehdr f imem dmem) (
          converts (
            expected h o.imem_words o.dmem_words f.content ehdr.e_phnum 0 ehdr.e_phoff
              (zeros o.imem_words, zeros o.dmem_words)))
  unfolding convert fseek
  convert-Meets ehdr f imem dmem s blank bytes small seeks =
      rw (seeks ehdr.e_phoff, convert)
        (subst
          (λ m.
            Meets files o
              (finish files o (
                load_segments h ehdr.e_phnum 0
                  (record { elf = fseek ehdr.e_phoff f; imem = imem; dmem = dmem })))
              (converts
                (expected h o.imem_words o.dmem_words f.content ehdr.e_phnum 0 ehdr.e_phoff m)))
          blank
          (finish-Meets f.content _ _ _ (
            load_segments-Matches h o.imem_words o.dmem_words ehdr.e_phnum 0 (fseek ehdr.e_phoff f)
              (record { elf = f; imem = imem; dmem = dmem }) s bytes small (λ k. seeks _))))

  allocate-Meets :
      (ehdr : Ehdr) (f : File)
      → AreBytes f.content
      → length f.content < 2 ^ 29
      → 4 * o.imem_words < 2 ^ 32
      → 4 * o.dmem_words < 2 ^ 32
      → ((n : ℕ) → h.can_seek n ≡ true)
      → Meets files o (allocate h files o ehdr f) (
          if not (h.can_alloc (o.imem_words * 4) && h.can_alloc (o.dmem_words * 4))
          then exits out_of_memory
          else converts (
              expected h o.imem_words o.dmem_words f.content ehdr.e_phnum 0 ehdr.e_phoff
                (zeros o.imem_words, zeros o.dmem_words)))
  unfolding allocate
  allocate-Meets ehdr f bytes small si sd seeks =
      elim (Bool-cases (h.can_alloc (o.imem_words * 4))) [
        | inr no_imem ↦ rw (no_imem, not_granted h.can_alloc o.imem_words no_imem, allocate) refl
        | inl imem_granted ↦ elim (Bool-cases (h.can_alloc (o.dmem_words * 4))) [
          | inr no_dmem ↦
              rw
                (
                  imem_granted,
                  no_dmem,
                  (fresh h.can_alloc o.imem_words imem_granted si).1,
                  not_granted h.can_alloc o.dmem_words no_dmem,
                  allocate,
                )
                refl
          | inl dmem_granted ↦
              let (imem, made_i, vi, ni, bi, zi) = fresh h.can_alloc o.imem_words imem_granted si in
              let (dmem, made_d, vd, nd, bd, zd) = fresh h.can_alloc o.dmem_words dmem_granted sd in
              rw (imem_granted, dmem_granted, made_i, made_d, allocate)
                (convert-Meets ehdr f imem dmem
                  (record {
                    imem_valid = vi;
                    dmem_valid = vd;
                    imem_base = bi;
                    dmem_base = bd;
                    imem_size = ni;
                    dmem_size = nd;
                  })
                  (λ i. (get_elem? (zi i), get_elem? (zd i))) bytes small seeks)
        ]
      ]

  -- For a file of bytes, shorter than 2 ^ 29, that can be sought, and memories below 2 ^ 32 bytes.
  pub read_header-Meets :
      (content : Bytes)
      → AreBytes content
      → length content < 2 ^ 29
      → 4 * o.imem_words < 2 ^ 32
      → 4 * o.dmem_words < 2 ^ 32
      → ((n : ℕ) → h.can_seek n ≡ true)
      → Meets files o
          (read_header h files o (record { content = content; position = 0 }))
          (verdict h o content)
  unfolding read_header check_header
  read_header-Meets content bytes small si sd seeks =
      let f : File = record { content = content; position = 0 } in
      let ehdr = ehdr_of (take 52 content) in
      elim (fread_object-cases 52 f (omega arith)) [
        | inr (short, fails_to) ↦
            let test : ltb (length content) 52 ≡ true = ground arith in
            rw (test, fails_to, read_header) refl
        | inl (room, reads, whole) ↦
            let test : ltb (length content) 52 ≡ false = ground arith in
            elim (Bool-cases (has_magic ehdr)) [
              | inr strange ↦ rw (test, reads, read_header, strange) refl
              | inl magic ↦ elim (Bool-cases (ehdr.e_machine == 243)) [
                | inr other ↦ rw (test, reads, read_header, magic, other) refl
                | inl riscv ↦
                    rw (test, reads, read_header, magic, riscv)
                      (allocate-Meets ehdr (behind 52 f) bytes small si sd seeks)
              ]
            ]
      ]

-- Where the arguments name a file of bytes that can be read, is shorter than 2 ^ 29 and can be sought
-- at every offset, and both memories are below 2 ^ 32 bytes: `main` ends as its verdict on the file,
-- with the exit that the verdict is, with the first failure of the segments, or with the two hex
-- files of the expected memories, up to the first that cannot be created.
pub main-Meets :
    (h : Host) (files : Files) (args : List Bytes) (o : Options) (path content : Bytes)
    → parse_options args default_options ≡ some o
    → o.elf_path ≡ some path
    → files.read_file path ≡ some content
    → AreBytes content
    → length content < 2 ^ 29
    → 4 * o.imem_words < 2 ^ 32
    → 4 * o.dmem_words < 2 ^ 32
    → ((n : ℕ) → h.can_seek n ≡ true)
    → Meets files o (main h files args) (verdict h o content)
unfolding main
main-Meets h files args o path content parsed named found bytes small si sd seeks =
    rw (parsed, opens o.elf_path named)
      (read_header-Meets h files o content bytes small si sd seeks)
  where
    opens :
        (p : Option Bytes)
        → p ≡ some path
        → with_options h files o p
          ≡ read_header h files o (record { content = content; position = 0 })
    opens p e = rw (e, found) refl
