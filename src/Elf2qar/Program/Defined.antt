-- ===== src/Elf2qar/Program/Defined.antt =====
-- elf2qar makes no access that C leaves undefined.
use qar_mvp.Prelude.{
  ℕ, zero, suc, ◌+◌, ◌*◌, ◌^◌, ◌<◌, ◌≡◌, ◌≢◌, refl, Bool, true, false, not, ◌&&◌, Option, none,
  some, List, ◌==◌, ltb, if◌then◌else◌, Bytes, AreBytes, length, take, arith,
}
use qar_mvp.Elf2qar.Elf.{ehdr_of, has_magic}
use qar_mvp.Elf2qar.Load.{Host, overrun}
use qar_mvp.Elf2qar.Load.Expected.{Memory, Expected, loads, fails, expected_round, expected}
use qar_mvp.Elf2qar.Program.{
  Options, Files, Exit, load_failed, undefined_access, parse_options, default_options, open_elf,
  with_options, with_parsed, main,
}
use qar_mvp.Elf2qar.Program.Verdict.{Verdict, exits, converts, verdict, printed, Meets}
use qar_mvp.Elf2qar.Program.Whole.{read_header-Meets}

-- Neither a copy that leaves a buffer, nor a read behind one.
abbrev pub IsDefined : Exit → Type 0
IsDefined exit = (exit ≢ undefined_access) × (exit ≢ load_failed overrun)

abbrev NoOverrun : Expected → Type 0
NoOverrun e = e ≢ fails overrun

abbrev Defines : Verdict → Type 0
Defines (exits e) = IsDefined e
Defines (converts e) = NoOverrun e

module _ (h : Host) (imem_words dmem_words : ℕ) (content : Bytes) where
  expected_round-NoOverrun :
      (i offset : ℕ) (m : Memory × Memory)
      → NoOverrun (expected_round h imem_words dmem_words content i offset m)
  expected_round-NoOverrun i offset m = λ e. ground arith

  expected-NoOverrun :
      (left i offset : ℕ) (m : Memory × Memory)
      → NoOverrun (expected h imem_words dmem_words content left i offset m)
  unfolding expected
  expected-NoOverrun zero i offset m = λ e. cc
  expected-NoOverrun (suc left) i offset m =
      by_round (expected_round h imem_words dmem_words content i offset m)
        (expected_round-NoOverrun i offset m) (expected-NoOverrun left (i + 1) (offset + 32))
    where
      by_round :
          (r : Expected)
          → NoOverrun r
          → ((m' : Memory × Memory)
              → NoOverrun (expected h imem_words dmem_words content left (i + 1) (offset + 32) m'))
          → NoOverrun (elim r [
            | fails e ↦ fails e
            | loads m' ↦ expected h imem_words dmem_words content left (i + 1) (offset + 32) m'
          ])
      by_round (fails e) n go = n
      by_round (loads m') n go = go m'

verdict-Defines : (h : Host) (o : Options) (content : Bytes) → Defines (verdict h o content)
verdict-Defines h o content =
    let ehdr = ehdr_of (take 52 content) in
    by_test (ltb (length content) 52) _ _ (λ x. cc, λ x. cc)
      (by_test (not (has_magic ehdr)) _ _ (λ x. cc, λ x. cc)
        (by_test (not (ehdr.e_machine == 243)) _ _ (λ x. cc, λ x. cc)
          (by_test (not (h.can_alloc (o.imem_words * 4) && h.can_alloc (o.dmem_words * 4))) _ _
            (λ x. cc, λ x. cc)
            (expected-NoOverrun h o.imem_words o.dmem_words content ehdr.e_phnum 0 ehdr.e_phoff
              _))))
  where
    by_test : (b : Bool) (u v : Verdict) → Defines u → Defines v → Defines (if b then u else v)
    by_test true u v p q = p
    by_test false u v p q = q

Meets-IsDefined :
    (files : Files) (o : Options) (exit : Exit) (v : Verdict)
    → Meets files o exit v
    → Defines v
    → IsDefined exit
Meets-IsDefined files o exit (exits e) same d = rw same d
Meets-IsDefined files o exit (converts (fails e)) same d = rw same (λ x. cc, λ x. d (cc))
Meets-IsDefined files o exit (converts (loads m)) p d =
    rw p.ends (by_created (files.can_create o.program_hex) (files.can_create o.data_hex) _ _)
  where
    by_created : (a b : Bool) (t u : Bytes) → IsDefined (printed a b t u)
    by_created false b t u = (λ x. cc, λ x. cc)
    by_created true false t u = (λ x. cc, λ x. cc)
    by_created true true t u = (λ x. cc, λ x. cc)

-- Whatever the arguments, the allocator and the files: if each file that can be read is a string of
-- bytes shorter than 2 ^ 29, every offset can be sought, and the options give both memories less than
-- 2 ^ 32 bytes, `main` ends without a copy or a read outside a buffer.
pub main-IsDefined :
    (h : Host) (files : Files) (args : List Bytes)
    → ((path content : Bytes)
        → files.read_file path ≡ some content
        → AreBytes content × (length content < 2 ^ 29))
    → ((o : Options)
        → parse_options args default_options ≡ some o
        → (4 * o.imem_words < 2 ^ 32) × (4 * o.dmem_words < 2 ^ 32))
    → ((n : ℕ) → h.can_seek n ≡ true)
    → IsDefined (main h files args)
unfolding main
main-IsDefined h files args readable sized seeks =
    by_options (parse_options args default_options) sized
  where
    by_content :
        (o : Options) (c : Option Bytes)
        → ((content : Bytes) → c ≡ some content → AreBytes content × (length content < 2 ^ 29))
        → (4 * o.imem_words < 2 ^ 32) × (4 * o.dmem_words < 2 ^ 32)
        → IsDefined (open_elf h files o c)
    by_content o none r z = (λ x. cc, λ x. cc)
    by_content o (some content) r z =
        Meets-IsDefined files o _ (verdict h o content)
          (read_header-Meets h files o content (r content refl).0 (r content refl).1 z.0 z.1 seeks)
          (verdict-Defines h o content)

    by_path :
        (o : Options) (p : Option Bytes)
        → (4 * o.imem_words < 2 ^ 32) × (4 * o.dmem_words < 2 ^ 32)
        → IsDefined (with_options h files o p)
    by_path o none z = (λ x. cc, λ x. cc)
    by_path o (some path) z = by_content o (files.read_file path) (readable path) z

    by_options :
        (o : Option Options)
        → ((o' : Options)
            → o ≡ some o'
            → (4 * o'.imem_words < 2 ^ 32) × (4 * o'.dmem_words < 2 ^ 32))
        → IsDefined (with_parsed h files o)
    by_options none z = (λ x. cc, λ x. cc)
    by_options (some o) z = by_path o o.elf_path (z o refl)
