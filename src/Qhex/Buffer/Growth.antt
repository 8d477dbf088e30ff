-- ===== src/Qhex/Buffer/Growth.antt =====
-- The allocations of `append_word` in devkit/tools/qhex/main.c: which sizes are requested.
use qar_mvp.Prelude.{
  ℕ, zero, suc, ◌*◌, ◌^◌, ◌≤◌, ◌<◌, ◌≡◌, refl, sym, ap, ◌∙◌, Bool, true, false, Option, none, some,
  List, ◌==◌, ltb, length, arith, Bool-cases, inl, inr,
}
use qar_mvp.Qhex.Buffer.{WordBuffer, empty_buffer, push, next_capacity, append_word}
use qar_mvp.Qhex.Buffer.Laws.{Represents, next_capacity_lem}

-- The capacities that the array has in turn.
abbrev pub grown : ℕ → ℕ
grown zero = 0
grown (suc zero) = 64
grown (suc (suc k)) = grown (suc k) * 2

-- Every allocation that is requested on the way to `n` words is granted.
abbrev pub Grants : (ℕ → Bool) → ℕ → Type 0
Grants can_alloc n = (k : ℕ) → grown k < n → can_alloc (grown (suc k) * 4) ≡ true

-- One of them is refused.
abbrev pub Refuses : (ℕ → Bool) → ℕ → Type 0
Refuses can_alloc n = (k : ℕ) × (grown k < n) × (can_alloc (grown (suc k) * 4) ≡ false)

-- The array has one of these capacities, and the allocations up to it were granted.
pub record HasGrown (can_alloc : ℕ → Bool) (b : WordBuffer) : Type 0 where
  pub step : ℕ
  pub capacity_is : b.capacity ≡ grown step
  pub granted : (j : ℕ) → j < step → can_alloc (grown (suc j) * 4) ≡ true

pub empty-HasGrown : (can_alloc : ℕ → Bool) → HasGrown can_alloc empty_buffer
empty-HasGrown can_alloc = record {
  step = 0;
  capacity_is = refl;
  granted = λ j h. absurd (omega arith);
}

grown_positive : (k : ℕ) → 0 < grown (suc k)
grown_positive zero = omega arith
grown_positive (suc k) = omega (arith, grown_positive k)

grown_mono : (j k : ℕ) → j ≤ k → grown j ≤ grown k
grown_mono zero k h = omega arith
grown_mono (suc j) zero h = absurd (omega arith)
grown_mono (suc zero) (suc zero) h = omega arith
grown_mono (suc zero) (suc (suc k)) h = omega (arith, grown_mono (suc zero) (suc k) (omega arith))
grown_mono (suc (suc j)) (suc zero) h = absurd (omega arith)
grown_mono (suc (suc j)) (suc (suc k)) h = omega (arith, grown_mono (suc j) (suc k) (omega arith))

-- A size that is requested below a capacity that was reached was granted.
pub Represents-Grants :
    (can_alloc : ℕ → Bool) {b : WordBuffer} {ws : List ℕ}
    → Represents b ws
    → HasGrown can_alloc b
    → Grants can_alloc (length ws)
Represents-Grants can_alloc r g k h = elim (Bool-cases (ltb k g.step)) [
  | inl before ↦ g.granted k (ground arith)
  | inr behind ↦
      let above : g.step ≤ k = ground arith in
      absurd (omega (arith, grown_mono g.step k above, g.capacity_is, r.sized))
]

next_capacity-grown : (k : ℕ) → grown k * 4 < 2 ^ 63 → next_capacity (grown k) ≡ grown (suc k)
unfolding next_capacity
next_capacity-grown zero h = refl
next_capacity-grown (suc k) h = ground (arith, grown_positive k)

abbrev is_some : Option WordBuffer → Bool
is_some none = false
is_some (some b) = true

abbrev capacity_of : Option WordBuffer → ℕ
capacity_of none = 0
capacity_of (some b) = b.capacity

none-some : {b : WordBuffer} → none ≡ some b → ⊥
none-some {b} e = ground (arith, ap is_some e)

granted_suc :
    (can_alloc : ℕ → Bool) (step : ℕ)
    → ((j : ℕ) → j < step → can_alloc (grown (suc j) * 4) ≡ true)
    → can_alloc (grown (suc step) * 4) ≡ true
    → (j : ℕ) → j < suc step
    → can_alloc (grown (suc j) * 4) ≡ true
granted_suc can_alloc step before now j h = elim (Bool-cases (ltb j step)) [
  | inl less ↦ before j (ground arith)
  | inr same ↦
      let e : step ≡ j = ground arith in ap (λ (k : ℕ). can_alloc (grown (suc k) * 4)) (sym e) ∙ now
]

-- A full array goes on to the next capacity, and any other keeps its own.
pub append_word-HasGrown :
    (can_alloc : ℕ → Bool) (b b' : WordBuffer) (ws : List ℕ) (v : ℕ)
    → Represents b ws
    → HasGrown can_alloc b
    → append_word can_alloc b v ≡ some b'
    → HasGrown can_alloc b'
unfolding append_word push
append_word-HasGrown can_alloc b b' ws v r g added =
    let exact = (next_capacity_lem b.capacity r.small).1 in
    let next : next_capacity b.capacity ≡ grown (suc g.step) =
      rw g.capacity_is (next_capacity-grown g.step (omega (arith, r.small, g.capacity_is))) in
    elim (Bool-cases (b.count == b.capacity)) [
      | inr room ↦
          let same : b.capacity ≡ b'.capacity = ap capacity_of (rw room at added) in
          record { step = g.step; capacity_is = sym same ∙ g.capacity_is; granted = g.granted }
      | inl full ↦ elim (Bool-cases (can_alloc (next_capacity b.capacity * 4))) [
        | inl more ↦
            let same : next_capacity b.capacity ≡ b'.capacity =
              ap capacity_of (rw (full, exact, more) at added) in
            record {
              step = suc g.step;
              capacity_is = sym same ∙ next;
              granted = granted_suc can_alloc g.step g.granted (rw next at more);
            }
        | inr refused ↦ absurd (none-some (rw (full, exact, refused) at added))
      ]
    ]

-- A refusal where the array is full is one of a size that its words and one more need.
pub refusal :
    (can_alloc : ℕ → Bool) (b : WordBuffer) (ws : List ℕ) (n : ℕ)
    → Represents b ws
    → HasGrown can_alloc b
    → b.count ≡ b.capacity
    → can_alloc (next_capacity b.capacity * 4) ≡ false
    → length ws < n
    → Refuses can_alloc n
refusal can_alloc b ws n r g full refused more =
    let next : next_capacity b.capacity ≡ grown (suc g.step) =
      rw g.capacity_is (next_capacity-grown g.step (omega (arith, r.small, g.capacity_is))) in
    (g.step, omega (arith, g.capacity_is, full, r.counted), rw next at refused)
