-- ===== src/Qhex/Program/Arguments.antt =====
-- The command line of devkit/tools/qhex/main.c, `[--bin path] program.hex`.
use qar_mvp.Prelude.{
  ◌≡◌, refl, Bool, true, false, Option, none, some, List, [], ◌∷◌, ◌++◌, if◌then◌else◌, Bytes,
  Bool-cases, inl, inr,
}
use qar_mvp.Libc.Stream.{same_text}
use qar_mvp.Qhex.Program.{
  dash_bin, Args, parsed, second_input, bin_requires_path, multiple_inputs, no_input, parse_args,
}

-- What the command line is made of: `--bin` with a path, and the paths of inputs.
pub data Item : Type 0 where
  bin : Bytes → Item
  input : Bytes → Item

-- How the arguments are read, from the left; the flag is set when a last `--bin` lacks its path.
pub data Reads : List Bytes → List Item → Bool → Type 0 where
  done : Reads [] [] false
  cut_off : {a : Bytes} → same_text a dash_bin ≡ true → Reads (a ∷ []) [] true
  on_bin :
      {a path : Bytes} {rest : List Bytes} {items : List Item} {cut : Bool}
      → same_text a dash_bin ≡ true
      → Reads rest items cut
      → Reads (a ∷ path ∷ rest) (bin path ∷ items) cut
  on_input :
      {a : Bytes} {rest : List Bytes} {items : List Item} {cut : Bool}
      → same_text a dash_bin ≡ false
      → Reads rest items cut
      → Reads (a ∷ rest) (input a ∷ items) cut

abbrev pub inputs : List Item → List Bytes
inputs [] = []
inputs (bin path ∷ items) = inputs items
inputs (input path ∷ items) = path ∷ inputs items

-- The path of the last `--bin`, if there is one.
abbrev pub last_bin : Option Bytes → List Item → Option Bytes
last_bin path [] = path
last_bin path (bin other ∷ items) = last_bin (some other) items
last_bin path (input other ∷ items) = last_bin path items

-- Two inputs are refused, then a `--bin` without its path, then a line without an input.
abbrev pub understood : List Bytes → Option Bytes → Bool → Args
understood [] bin_out cut = if cut then bin_requires_path else no_input
understood (path ∷ []) bin_out cut = if cut then bin_requires_path else parsed bin_out path
understood (path ∷ other ∷ paths) bin_out cut = multiple_inputs

abbrev given : Option Bytes → List Bytes
given none = []
given (some path) = path ∷ []

record Line (args : List Bytes) : Type 0 where
  items : List Item
  cut : Bool
  reads : Reads args items cut
  result :
      (bin_out hex_path : Option Bytes)
      → parse_args args bin_out hex_path
        ≡ understood (given hex_path ++ inputs items) (last_bin bin_out items) cut

cut_line :
    (bin_out hex_path : Option Bytes)
    → bin_requires_path ≡ understood (given hex_path ++ []) bin_out true
cut_line bin_out none = refl
cut_line bin_out (some path) = refl

-- A path in front of what is read as one input and more.
second_input_lem :
    (a : Bytes) (paths : List Bytes) (bin_out hex_path : Option Bytes) (cut : Bool) (rest : Args)
    → rest ≡ understood (a ∷ paths) bin_out cut
    → second_input hex_path rest ≡ understood (given hex_path ++ (a ∷ paths)) bin_out cut
second_input_lem a paths bin_out none cut rest same = same
second_input_lem a paths bin_out (some path) cut rest same = refl

parse_args-Line : (args : List Bytes) → Line args
unfolding parse_args
parse_args-Line [] = record {
  items = [];
  cut = false;
  reads = done;
  result = λ bin_out. at_end bin_out;
}
  where
    at_end :
        (bin_out hex_path : Option Bytes)
        → parse_args [] bin_out hex_path ≡ understood (given hex_path ++ []) bin_out false
    at_end bin_out none = refl
    at_end bin_out (some path) = refl
parse_args-Line (a ∷ []) = elim (Bool-cases (same_text a dash_bin)) [
  | inl flag ↦ record {
    items = [];
    cut = true;
    reads = cut_off flag;
    result = λ bin_out hex_path. rw flag (cut_line bin_out hex_path);
  }
  | inr path ↦ record {
    items = input a ∷ [];
    cut = false;
    reads = on_input path done;
    result = λ bin_out hex_path. rw path (second_input_lem a [] bin_out hex_path false _ refl);
  }
]
parse_args-Line (a ∷ b ∷ rest) = elim (Bool-cases (same_text a dash_bin)) [
  | inl flag ↦
      let line = parse_args-Line rest in
      record {
        items = bin b ∷ line.items;
        cut = line.cut;
        reads = on_bin flag line.reads;
        result = λ bin_out hex_path. rw flag (line.result (some b) hex_path);
      }
  | inr path ↦
      let line = parse_args-Line (b ∷ rest) in
      record {
        items = input a ∷ line.items;
        cut = line.cut;
        reads = on_input path line.reads;
        result = λ bin_out hex_path. rw path (
            second_input_lem a (inputs line.items) _ hex_path line.cut _
              (line.result bin_out (some a)));
      }
]

-- Every command line reads as inputs and `--bin` options, perhaps with a last one cut off, and what
-- comes of the arguments is what is understood of these.
pub parse_args-Reads :
    (args : List Bytes)
    → (items : List Item) × (cut : Bool) × Reads args items cut
      × (parse_args args none none ≡ understood (inputs items) (last_bin none items) cut)
parse_args-Reads args =
    let line = parse_args-Line args in (line.items, line.cut, line.reads, line.result none none)
