-- ===== src/Qhex/Program/Whole.antt =====
-- The whole of qhex: what `main` of devkit/tools/qhex/main.c makes of a hex file.
use mathlib.Core.List.{map}
use qar_mvp.Prelude.{
  ℕ, suc, ◌-◌, ◌^◌, ◌<◌, ◌≡◌, refl, ap, ◌∙◌, Bool, true, false, Option, none, some, List, [], ◌∷◌,
  ◌++◌, ltb, if◌then◌else◌, length, get_elem?, Bytes, arith, ◌⊎◌, inl, inr,
}
use qar_mvp.Qhex.Buffer.{WordBuffer}
use qar_mvp.Qhex.Buffer.Laws.{Represents}
use qar_mvp.Qhex.Reader.{
  Scanned, Outcome, read_all, invalid_word, out_of_memory, stuck, read_line, read_hex,
}
use qar_mvp.Qhex.Reader.Laws
use qar_mvp.Qhex.Buffer.Growth.{Grants, Refuses}
use qar_mvp.Qhex.Reader.Laws.{
  Content, words, bad, words_of, content, split, nonzero_count, read_hex-Meets,
}
use qar_mvp.Qhex.Binary.{Written, wrote, failed, unwritten, write_binary}
use qar_mvp.Qhex.Binary.Laws.{outcome, write_words_lem}
use qar_mvp.Qhex.Program.{
  parsed, parse_args, Report, report, Host, Exit, bad_word, no_memory, finished, converted,
  not_written, image_exit, conclude, with_args, main,
}

abbrev last_of : ℕ → List ℕ → ℕ
last_of w [] = w
last_of w (v ∷ vs) = last_of v vs

-- What is to be reported of the words of a file.
abbrev pub report_of : List ℕ → Report
report_of [] = record { count = 0; nonzero = 0; ends = none }
report_of (w ∷ ws) = record {
  count = suc (length ws);
  nonzero = nonzero_count (w ∷ ws);
  ends = some (some (some w), some (some (last_of w ws)));
}

get_elem?-last :
    (w : ℕ) (ws : List ℕ) (spare : List (Option ℕ))
    → get_elem? (some w ∷ (map some ws ++ spare)) (length ws) ≡ some (some (last_of w ws))
get_elem?-last w [] spare = refl
get_elem?-last w (v ∷ vs) spare = get_elem?-last v vs spare

report_lem :
    (s : Scanned) (ws : List ℕ)
    → Represents s.buf ws
    → s.nonzero ≡ nonzero_count ws
    → report s ≡ report_of ws
unfolding report
report_lem s [] r n = rw (r.counted, n) refl
report_lem s (w ∷ ws) r n =
    let some_words : ltb 0 (suc (length ws)) ≡ true = ground arith in
    let last : suc (length ws) - 1 ≡ length ws = omega arith in
    rw (r.cells, r.counted, n, some_words, last, get_elem?-last w ws r.spare) refl

-- How `main` returns when the words were read: the image is asked for or not, and the file is
-- created or not, and every `fwrite` succeeds or not.
abbrev written_exit : Report → Written → Exit
written_exit r (wrote image) = converted r image
written_exit r (failed image) = not_written r (some (failed image))
written_exit r unwritten = not_written r (some unwritten)

abbrev pub words_exit : Host → Option Bytes → List ℕ → Exit
words_exit h none ws = finished (report_of ws)
words_exit h (some path) ws =
    if h.can_create path
    then written_exit (report_of ws) (outcome h.can_write 0 ws [])
    else not_written (report_of ws) none

-- One of the allocations for `n` words was refused.
abbrev pub RanOut : Host → ℕ → Exit → Type 0
RanOut h n exit = (exit ≡ no_memory) × Refuses h.can_alloc n

-- `main` returns as the file says, and every allocation for its words was granted; or it ran out of
-- memory, and one of them was refused.
abbrev pub said_exit : Host → Option Bytes → Content → Exit
said_exit h bin_out (words ws) = words_exit h bin_out ws
said_exit h bin_out (bad ws n) = bad_word n

abbrev pub Emits : Host → Option Bytes → Exit → Content → Type 0
Emits h bin_out exit c =
    ((exit ≡ said_exit h bin_out c) × Grants h.can_alloc (length (words_of c)))
    ⊎ RanOut h (length (words_of c)) exit

write_binary_lem :
    (create : Bool) (can_write : ℕ → Bool) (b : WordBuffer) (ws : List ℕ)
    → Represents b ws
    → write_binary create can_write b ≡ (if create then some (outcome can_write 0 ws []) else none)
unfolding write_binary
write_binary_lem true can_write b ws r = ap some (write_words_lem can_write b ws r)
write_binary_lem false can_write b ws r = refl

conclude_words :
    (h : Host) (bin_out : Option Bytes) (s : Scanned) (ws : List ℕ)
    → Represents s.buf ws
    → s.nonzero ≡ nonzero_count ws
    → conclude h bin_out (read_all s) ≡ words_exit h bin_out ws
conclude_words h none s ws r n = ap finished (report_lem s ws r n)
conclude_words h (some path) s ws r n =
    rw (report_lem s ws r n, write_binary_lem (h.can_create path) h.can_write s.buf ws r)
      (by_created (h.can_create path) (outcome h.can_write 0 ws []))
  where
    by_written : (w : Written) → image_exit (report_of ws) (some w) ≡ written_exit (report_of ws) w
    by_written (wrote image) = refl
    by_written (failed image) = refl
    by_written unwritten = refl

    by_created :
        (b : Bool) (w : Written)
        → image_exit (report_of ws) (if b then some w else none)
          ≡ (if b then written_exit (report_of ws) w else not_written (report_of ws) none)
    by_created true w = by_written w
    by_created false w = refl

conclude-Emits :
    (h : Host) (bin_out : Option Bytes) (o : Outcome) (c : Content)
    → Laws.Meets h.can_alloc [] 0 o c
    → Emits h bin_out (conclude h bin_out o) c
conclude-Emits h bin_out (read_all s) (words ws) (r, n, g) =
    inl (conclude_words h bin_out s ws r (n ∙ omega arith), g)
conclude-Emits h bin_out (read_all s) (bad ws k) m = absurd m
conclude-Emits h bin_out (invalid_word k) (words ws) m = absurd m
conclude-Emits h bin_out (invalid_word k) (bad ws l) (e, g) = inl (ap bad_word e, g)
conclude-Emits h bin_out out_of_memory c m = inr (refl, m)
conclude-Emits h bin_out stuck c m = absurd m

-- Where the arguments are understood and name a file that can be read, and no allocation of 2 ^ 63
-- bytes or more is granted: `main` returns as the lines of the file say, with a bad line, or with the
-- report on the words and their image if it was asked for, and then `realloc` granted every size that
-- the words need; or it ran out of memory, and then `realloc` refused one of these sizes.
-- Where the arguments are understood and name a file that can be read, and no allocation of 2 ^ 63
-- bytes or more is granted: `main` returns as the lines of the file say, with a bad line, or with the
-- report on the words and their image if it was asked for, or because an allocation was refused.
pub main-Emits :
    (h : Host) (args : List Bytes) (bin_out : Option Bytes) (hex_path text : Bytes)
    → parse_args args none none ≡ parsed bin_out hex_path
    → h.read_file hex_path ≡ some text
    → ((n : ℕ) → h.can_alloc n ≡ true → n < 2 ^ 63)
    → Emits h bin_out (main h args) (content 0 (map read_line (split 255 text)))
unfolding main
main-Emits h args bin_out hex_path text understood found bound =
    rw (understood, found, with_args)
      (conclude-Emits h bin_out (read_hex h.can_alloc text) _
        (read_hex-Meets h.can_alloc text bound))
