-- ===== src/Rtl/Gpio/Samples.antt =====
-- The debouncer of a pin of qar-core/rtl/gpio.v, a level and a counter, against its samples.
use qar_mvp.Prelude.{
  ℕ, ◌+◌, ◌^◌, ◌<◌, ◌≤◌, ◌≡◌, refl, sym, Bool, true, false, if◌then◌else◌, leb, u16, List, [], ◌∷◌,
  arith, Bool-cases, inl, inr,
}
use qar_mvp.Rtl.Gpio.{same_level}

-- How many of the last samples are equal, of samples with the last one first.
abbrev pub run : List Bool → ℕ
run [] = 0
run (x ∷ []) = 1
run (x ∷ y ∷ h) = if same_level x y then run (y ∷ h) + 1 else 1

-- The level of the last samples that were equal for a whole window, or the first level.
abbrev pub settled : ℕ → Bool → List Bool → Bool
settled window first [] = first
settled window first (x ∷ h) = if leb window (run (x ∷ h)) then x else settled window first h

-- The samples in a row that differ from the level.
abbrev waiting : Bool → List Bool → ℕ
waiting level [] = 0
waiting level (x ∷ h) = if same_level x level then 0 else run (x ∷ h)

same_level_eq : (a b : Bool) → same_level a b ≡ true → a ≡ b
same_level_eq true true e = refl
same_level_eq true false e = sym e
same_level_eq false true e = e
same_level_eq false false e = refl

same_level_refl : (a : Bool) → same_level a a ≡ true
same_level_refl true = refl
same_level_refl false = refl

run-waiting :
    (x level : Bool) (h : List Bool)
    → same_level x level ≡ false
    → run (x ∷ h) ≡ waiting level h + 1
run-waiting x level [] e = omega arith
run-waiting true true (y ∷ h) e = ground arith
run-waiting false false (y ∷ h) e = ground arith
run-waiting true false (true ∷ h) e = refl
run-waiting true false (false ∷ h) e = omega arith
run-waiting false true (true ∷ h) e = omega arith
run-waiting false true (false ∷ h) e = refl

-- What an input pin with its debouncer on does with a sample.
abbrev pub step : ℕ → Bool → Bool × ℕ → Bool × ℕ
step thr x p =
    if same_level x p.0 then (p.0, 0) else if leb thr p.1 then (x, 0) else (p.0, u16 (p.1 + 1))

-- The level and the counter fit the samples.
pub record Fits (thr : ℕ) (first : Bool) (h : List Bool) (p : Bool × ℕ) : Type 0 where
  pub level : p.0 ≡ settled (thr + 1) first h
  pub count : p.1 ≡ waiting p.0 h
  pub most : p.1 ≤ thr

pub step-Fits :
    (thr : ℕ) (first x : Bool) (h : List Bool) (p : Bool × ℕ)
    → thr < 2 ^ 16
    → Fits thr first h p
    → Fits thr first (x ∷ h) (step thr x p)
step-Fits thr first x h p small f = elim (Bool-cases (same_level x p.0)) [
  | inl same ↦
      let e = same_level_eq x p.0 same in
      rw same (record {
        level = keeps (leb (thr + 1) (run (x ∷ h))) e f.level;
        count = rw same refl;
        most = omega arith;
      })
  | inr differs ↦
      let ran = run-waiting x p.0 h differs in
      elim (Bool-cases (leb thr p.1)) [
        | inl long ↦
            let full : leb (thr + 1) (run (x ∷ h)) ≡ true = ground (arith, ran, f.count) in
            rw (differs, long)
              (record {
                level = rw full refl;
                count = rw (same_level_refl x) refl;
                most = omega arith;
              })
        | inr short ↦
            let few : leb (thr + 1) (run (x ∷ h)) ≡ false = ground (arith, ran, f.count) in
            let room : p.1 < thr = ground arith in
            rw (differs, short)
              (record {
                level = rw few f.level;
                count = rw differs (omega (arith, ran, f.count, room));
                most = omega (arith, room);
              })
      ]
]
  where
    keeps :
        {x level before : Bool} (b : Bool)
        → x ≡ level
        → level ≡ before
        → level ≡ (if b then x else before)
    keeps true e g = sym e
    keeps false e g = g
