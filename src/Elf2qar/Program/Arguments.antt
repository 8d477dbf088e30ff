-- ===== src/Elf2qar/Program/Arguments.antt =====
-- The command line of devkit/tools/elf2qar/main.c.
use qar_mvp.Prelude.{
  ℕ, ◌≡◌, refl, ap, ◌∙◌, Bool, true, false, Option, none, some, List, [], ◌∷◌, if◌then◌else◌, Bytes,
  u32, Bool-cases, inl, inr, ◌⊎◌,
}
use qar_mvp.Libc.Scan.{strtoul}
use qar_mvp.Libc.Stream.{same_text}
use qar_mvp.Elf2qar.Program.{
  dash_elf, dash_program, dash_data, dash_imem, dash_dmem, Options, default_options, set_option,
  parse_options,
}

-- The options, and their texts.
pub data Key : Type 0 where
  elf_file program_file data_file imem_size dmem_size : Key

abbrev pub key_text : Key → Bytes
key_text elf_file = dash_elf
key_text program_file = dash_program
key_text data_file = dash_data
key_text imem_size = dash_imem
key_text dmem_size = dash_dmem

abbrev same_key : Key → Key → Bool
same_key elf_file elf_file = true
same_key program_file program_file = true
same_key data_file data_file = true
same_key imem_size imem_size = true
same_key dmem_size dmem_size = true
same_key _ _ = false

abbrev pub Settings : Type 0
Settings = List (Key × Bytes)

-- Arguments that are options with their values.
pub data Reads : List Bytes → Settings → Type 0 where
  done : Reads [] []
  on_option :
      {a v : Bytes} {rest : List Bytes} {settings : Settings} (k : Key)
      → same_text a (key_text k) ≡ true
      → Reads rest settings
      → Reads (a ∷ v ∷ rest) ((k, v) ∷ settings)

-- Arguments with an option that lacks its value, or with an unknown one in its place.
pub data Rejected : List Bytes → Type 0 where
  alone : {a : Bytes} → Rejected (a ∷ [])
  unknown :
      {a v : Bytes} {rest : List Bytes}
      → ((k : Key) → same_text a (key_text k) ≡ false)
      → Rejected (a ∷ v ∷ rest)
  later : {a v : Bytes} {rest : List Bytes} → Rejected rest → Rejected (a ∷ v ∷ rest)

-- The last value of an option, if it is given at all.
abbrev pub last_of : Key → Settings → Option Bytes
last_of k [] = none
last_of k ((j, v) ∷ settings) = elim (last_of k settings) [
  | some w ↦ some w
  | none ↦ if same_key k j then some v else none
]

abbrev pub value : {A : Type 0} → A → (Bytes → A) → Option Bytes → A
value d f none = d
value d f (some v) = f v

abbrev pub number : Bytes → ℕ
number v = u32 (strtoul v)

-- Each field is the last value of its option, or what it was.
abbrev pub settled : Options → Settings → Options
settled o settings = record {
  elf_path = value o.elf_path some (last_of elf_file settings);
  program_hex = value o.program_hex (λ v. v) (last_of program_file settings);
  data_hex = value o.data_hex (λ v. v) (last_of data_file settings);
  imem_words = value o.imem_words number (last_of imem_size settings);
  dmem_words = value o.dmem_words number (last_of dmem_size settings);
}

abbrev set : Key → Bytes → Options → Options
set elf_file v o = record o { elf_path = some v }
set program_file v o = record o { program_hex = v }
set data_file v o = record o { data_hex = v }
set imem_size v o = record o { imem_words = number v }
set dmem_size v o = record o { dmem_words = number v }

value-last_of :
    {A : Type 0} (d : A) (f : Bytes → A) (k j : Key) (v : Bytes) (settings : Settings)
    → value d f (last_of k ((j, v) ∷ settings))
      ≡ value (if same_key k j then f v else d) f (last_of k settings)
value-last_of d f k j v settings = by_last (last_of k settings) (same_key k j)
  where
    by_last :
        (last : Option Bytes) (same : Bool)
        → value d f (elim last as (λ _. Option Bytes) [
          | some w ↦ some w
          | none ↦ if same then some v else none
        ])
          ≡ value (if same then f v else d) f last
    by_last (some w) same = refl
    by_last none true = refl
    by_last none false = refl

settled-set :
    (k : Key) (v : Bytes) (o : Options) (settings : Settings)
    → settled (set k v o) settings ≡ settled o ((k, v) ∷ settings)
settled-set k v o settings =
    rw
      (
        value-last_of o.elf_path some elf_file k v settings,
        value-last_of o.program_hex (λ w. w) program_file k v settings,
        value-last_of o.data_hex (λ w. w) data_file k v settings,
        value-last_of o.imem_words number imem_size k v settings,
        value-last_of o.dmem_words number dmem_size k v settings,
      )
      (by_key k)
  where
    by_key :
        (j : Key)
        → settled (set j v o) settings ≡ record {
          elf_path =
              value
                (if same_key elf_file j then some v else o.elf_path)
                some
                (last_of elf_file settings);
          program_hex =
              value
                (if same_key program_file j then v else o.program_hex)
                (λ w. w)
                (last_of program_file settings);
          data_hex =
              value
                (if same_key data_file j then v else o.data_hex)
                (λ w. w)
                (last_of data_file settings);
          imem_words =
              value
                (if same_key imem_size j then number v else o.imem_words)
                number
                (last_of imem_size settings);
          dmem_words =
              value
                (if same_key dmem_size j then number v else o.dmem_words)
                number
                (last_of dmem_size settings);
        }
    by_key elf_file = refl
    by_key program_file = refl
    by_key data_file = refl
    by_key imem_size = refl
    by_key dmem_size = refl

-- What an option is, whatever the options before it.
set_option_lem :
    (a v : Bytes)
    → ((k : Key) × (same_text a (key_text k) ≡ true)
        × ((o : Options) → set_option a v o ≡ some (set k v o)))
      ⊎ (((k : Key) → same_text a (key_text k) ≡ false) × ((o : Options) → set_option a v o ≡ none))
unfolding set_option
set_option_lem a v = elim (Bool-cases (same_text a dash_elf)) [
  | inl e ↦ inl (elf_file, e, λ o. rw e refl)
  | inr e ↦ elim (Bool-cases (same_text a dash_program)) [
    | inl p ↦ inl (program_file, p, λ o. rw (e, p) refl)
    | inr p ↦ elim (Bool-cases (same_text a dash_data)) [
      | inl d ↦ inl (data_file, d, λ o. rw (e, p, d) refl)
      | inr d ↦ elim (Bool-cases (same_text a dash_imem)) [
        | inl i ↦ inl (imem_size, i, λ o. rw (e, p, d, i) refl)
        | inr i ↦ elim (Bool-cases (same_text a dash_dmem)) [
          | inl m ↦ inl (dmem_size, m, λ o. rw (e, p, d, i, m) refl)
          | inr m ↦ inr (no_key e p d i m, λ o. rw (e, p, d, i, m) refl)
        ]
      ]
    ]
  ]
]
  where
    no_key :
        same_text a dash_elf ≡ false
        → same_text a dash_program ≡ false
        → same_text a dash_data ≡ false
        → same_text a dash_imem ≡ false
        → same_text a dash_dmem ≡ false
        → (k : Key) → same_text a (key_text k) ≡ false
    no_key e p d i m elf_file = e
    no_key e p d i m program_file = p
    no_key e p d i m data_file = d
    no_key e p d i m imem_size = i
    no_key e p d i m dmem_size = m

parse_options-Reads :
    (args : List Bytes)
    → ((settings : Settings) × Reads args settings
        × ((o : Options) → parse_options args o ≡ some (settled o settings)))
      ⊎ (Rejected args × ((o : Options) → parse_options args o ≡ none))
unfolding parse_options
parse_options-Reads [] = inl ([], done, λ o. refl)
parse_options-Reads (a ∷ []) = inr (alone, λ o. refl)
parse_options-Reads (a ∷ v ∷ rest) = elim (set_option_lem a v) [
  | inr (no_key, fails) ↦ inr (unknown no_key, λ o. rw (fails o, parse_options) refl)
  | inl (k, flag, sets) ↦ elim (parse_options-Reads rest) [
    | inr (rejected, fails) ↦
        inr (later rejected, λ o. rw (sets o, parse_options) (fails (set k v o)))
    | inl (settings, reads, result) ↦ inl (
      (k, v) ∷ settings,
      on_option k flag reads,
      λ o. rw (sets o, parse_options) (result (set k v o) ∙ ap some (settled-set k v o settings)),
    )
  ]
]

-- A command line either is options with their values, in any order and number: then each setting is
-- the last value of its option, or its default. Or an option lacks its value or is unknown: then
-- `usage` is called.
pub parse_options-cases :
    (args : List Bytes)
    → ((settings : Settings) × Reads args settings
        × (parse_options args default_options ≡ some (settled default_options settings)))
      ⊎ (Rejected args × (parse_options args default_options ≡ none))
parse_options-cases args = elim (parse_options-Reads args) [
  | inl (settings, reads, result) ↦ inl (settings, reads, result default_options)
  | inr (rejected, fails) ↦ inr (rejected, fails default_options)
]
