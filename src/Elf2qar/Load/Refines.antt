-- ===== src/Elf2qar/Load/Refines.antt =====
-- The segment loop does what is expected of the file.
use mathlib.Core.Path.{subst}
use qar_mvp.Prelude.{
  ℕ, zero, suc, ◌+◌, ◌*◌, ◌^◌, ◌<◌, ◌≡◌, refl, sym, ap, ◌∙◌, true, false, ◌==◌, ltb, if◌then◌else◌,
  Bytes, AreBytes, length, arith, Bool-cases, inl, inr,
}
use qar_mvp.Libc.Stream.{File, fseek}
use qar_mvp.Libc.Stream.Laws.{taken, behind, fread_object-cases, taken-AreBytes}
use qar_mvp.Elf2qar.Elf.{Phdr, phdr_of}
use qar_mvp.Elf2qar.Load.{
  Host, Loader, Loaded, ok, stopped, segment_not_read, read_segment, seek_back, load_segment,
  load_round, load_segments,
}
use qar_mvp.Elf2qar.Load.Expected.{
  both_laid, is_loadable, segment_of, Expected, loads, fails, expected_segment, expected_round,
  expected,
}
use qar_mvp.Elf2qar.Load.Rounds.{Sound, memories, place-Places, p_vaddr-lt}

module _ (h : Host) (imem_words dmem_words : ℕ) where
  -- The loader between two rounds: the images are sound, and the next header is at the offset.
  pub record At (content : Bytes) (offset : ℕ) (l : Loader) : Type 0 where
    pub sound : Sound imem_words dmem_words l.imem l.dmem
    pub file : l.elf ≡ record { content = content; position = offset }

  -- The loop ends as expected: with the same failure, or with the memories that are expected.
  abbrev pub Matches : Bytes → ℕ → Loaded → Expected → Type 0
  Matches content offset (ok l) (loads m) = At content offset l × (memories l ≡ m)
  Matches content offset (ok l) (fails e) = ⊥
  Matches content offset (stopped e) (loads m) = ⊥
  Matches content offset (stopped e) (fails e') = e ≡ e'

  read_segment-Matches :
      (p : Phdr) (f : File) (offset : ℕ) (l : Loader)
      → Sound imem_words dmem_words l.imem l.dmem
      → AreBytes f.content
      → length f.content < 2 ^ 29
      → p.p_vaddr < 2 ^ 32
      → 0 < p.p_filesz
      → h.can_seek offset ≡ true
      → Matches f.content offset (read_segment h p offset (record l { elf = fseek p.p_offset f })) (
          if ltb (length f.content) (p.p_offset + p.p_filesz)
          then fails segment_not_read
          else loads (both_laid imem_words dmem_words p (segment_of f.content p) (memories l)))
  unfolding read_segment seek_back fseek
  read_segment-Matches p f offset l s bytes small addr size seeks =
      let g = fseek p.p_offset f in
      let segment = taken p.p_filesz g in
      elim (fread_object-cases p.p_filesz g size) [
        | inr (short, fails_to) ↦
            let test : ltb (length f.content) (p.p_offset + p.p_filesz) ≡ true = ground arith in
            rw (test, fails_to, read_segment) refl
        | inl (room, reads, whole) ↦
            let test : ltb (length f.content) (p.p_offset + p.p_filesz) ≡ false = ground arith in
            let l' = record l { elf = seek_back h offset (behind p.p_filesz g) } in
            let done =
              place-Places imem_words dmem_words p segment l' s (taken-AreBytes p.p_filesz g bytes)
                whole addr (omega arith) in
            let sought : l'.elf ≡ record { content = f.content; position = offset } =
              rw (seeks, seek_back) refl in
            rw (test, reads, done.runs, read_segment)
              (record { sound = done.sound; file = done.same_elf ∙ sought }, done.result)
      ]

  load_segment-Matches :
      (p : Phdr) (f : File) (l : Loader)
      → Sound imem_words dmem_words l.imem l.dmem
      → AreBytes f.content
      → length f.content < 2 ^ 29
      → p.p_vaddr < 2 ^ 32
      → h.can_seek f.position ≡ true
      → Matches f.content f.position (load_segment h p (record l { elf = f })) (
          if is_loadable p
          then expected_segment h imem_words dmem_words f.content p (memories l)
          else loads (memories l))
  unfolding load_segment
  load_segment-Matches p f l s bytes small addr seeks = elim (Bool-cases (p.p_type == 1)) [
    | inr other ↦ rw (other, load_segment) (record { sound = s; file = refl }, refl)
    | inl load ↦ elim (Bool-cases (p.p_filesz == 0)) [
      | inl empty ↦ rw (load, empty, load_segment) (record { sound = s; file = refl }, refl)
      | inr full ↦ elim (Bool-cases (h.can_alloc p.p_filesz)) [
        | inr none_left ↦ rw (load, full, none_left, load_segment) refl
        | inl granted ↦ elim (Bool-cases (h.can_seek p.p_offset)) [
          | inr lost ↦ rw (load, full, granted, lost, load_segment) refl
          | inl found ↦
              rw (load, full, granted, found, load_segment)
                (read_segment-Matches p f f.position l s bytes small addr (ground arith) seeks)
        ]
      ]
    ]
  ]

  load_round-Matches :
      (i : ℕ) (f : File) (l : Loader)
      → Sound imem_words dmem_words l.imem l.dmem
      → AreBytes f.content
      → length f.content < 2 ^ 29
      → h.can_seek (f.position + 32) ≡ true
      → Matches f.content
          (f.position + 32)
          (load_round h i (record l { elf = f }))
          (expected_round h imem_words dmem_words f.content i f.position (memories l))
  unfolding load_round
  load_round-Matches i f l s bytes small seeks = elim (fread_object-cases 32 f (omega arith)) [
    | inr (short, fails_to) ↦
        let test : ltb (length f.content) (f.position + 32) ≡ true = ground arith in
        rw (test, fails_to, load_round) refl
    | inl (room, reads, whole) ↦
        let test : ltb (length f.content) (f.position + 32) ≡ false = ground arith in
        rw (test, reads, load_round)
          (load_segment-Matches (phdr_of (taken 32 f)) (behind 32 f) l s bytes small
            (p_vaddr-lt _ (taken-AreBytes 32 f bytes)) seeks)
  ]

  -- What follows a round, if it goes on as expected from every loader that the round may leave.
  rounds-Matches :
      (content : Bytes) (offset end left i : ℕ) (r : Loaded) (e : Expected)
      → Matches content offset r e
      → ((l : Loader)
          → Sound imem_words dmem_words l.imem l.dmem
          → Matches content end
              (load_segments h left i
                (record l { elf = record { content = content; position = offset } }))
              (expected h imem_words dmem_words content left i offset (memories l)))
      → Matches content end
          (elim r [ stopped x ↦ stopped x | ok l' ↦ load_segments h left i l' ])
          (elim e [
            | fails x ↦ fails x
            | loads m ↦ expected h imem_words dmem_words content left i offset m
          ])
  rounds-Matches content offset end left i (ok l) (loads m) (at, same) go = rw (← same) (
      subst
        (λ x.
          Matches content end (load_segments h left i (record l { elf = x }))
            (expected h imem_words dmem_words content left i offset (memories l)))
        (sym at.file) (go l at.sound))
  rounds-Matches content offset end left i (ok l) (fails e) m go = absurd m
  rounds-Matches content offset end left i (stopped e) (loads m') m go = absurd m
  rounds-Matches content offset end left i (stopped e) (fails e') m go = m

  -- For a file of bytes, shorter than 2 ^ 29, whose header table can be sought, and two valid images
  -- at address 0: the loop over the segments ends as expected of the file as a whole, with the same
  -- failure, or with valid images that hold the expected memories and the position behind the table.
  pub load_segments-Matches :
      (left i : ℕ) (f : File) (l : Loader)
      → Sound imem_words dmem_words l.imem l.dmem
      → AreBytes f.content
      → length f.content < 2 ^ 29
      → ((k : ℕ) → h.can_seek (f.position + 32 * k) ≡ true)
      → Matches f.content
          (f.position + 32 * left)
          (load_segments h left i (record l { elf = f }))
          (expected h imem_words dmem_words f.content left i f.position (memories l))
  unfolding load_segments expected
  load_segments-Matches zero i f l s bytes small seeks =
      (record { sound = s; file = ap (λ (n : ℕ). record f { position = n }) (omega arith) }, refl)
  load_segments-Matches (suc left) i f l s bytes small seeks =
      let end : f.position + 32 * suc left ≡ f.position + 32 + 32 * left = omega arith in
      let next : h.can_seek (f.position + 32) ≡ true = seeks 1 in
      rw end (
        rounds-Matches f.content (f.position + 32) _ left (i + 1) _ _
          (load_round-Matches i f l s bytes small next)
          (λ l' s'.
            load_segments-Matches left (i + 1) (behind 32 f) l' s' bytes small
              (λ k. later k (seeks (k + 1)))))
    where
      later :
          (k : ℕ)
          → h.can_seek (f.position + 32 * (k + 1)) ≡ true
          → h.can_seek (f.position + 32 + 32 * k) ≡ true
      later k seek =
          ap h.can_seek {x = f.position + 32 + 32 * k} {y = f.position + 32 * (k + 1)} (omega arith)
          ∙ seek
