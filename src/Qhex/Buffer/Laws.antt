-- ===== src/Qhex/Buffer/Laws.antt =====
-- `append_word` against the list of the words appended so far.
use mathlib.Core.List.{map}
use qar_mvp.Prelude.{
  ℕ, suc, ◌+◌, ◌-◌, ◌*◌, ◌^◌, ◌≤◌, ◌<◌, ◌≡◌, refl, ap, Bool, true, false, Option, none, some, List,
  [], ◌∷◌, ◌++◌, ◌==◌, length, length-append, length-replicate, replicate, u64, arith, append_assoc,
  Bool-cases, inl, inr, ◌⊎◌,
}
use qar_mvp.Qhex.Buffer.{
  WordBuffer, empty_buffer, set_cell, resize, push, next_capacity, append_word,
}

-- The array begins with the words, in order, followed by spare cells up to the capacity, which is
-- small enough for the size computations not to wrap.
pub record Represents (b : WordBuffer) (ws : List ℕ) : Type 0 where
  pub spare : List (Option ℕ)
  pub cells : b.words ≡ map some ws ++ spare
  pub counted : b.count ≡ length ws
  pub sized : length ws + length spare ≡ b.capacity
  pub small : b.capacity * 4 < 2 ^ 63

pub length-map-some : (ws : List ℕ) → length (map {B = Option ℕ} some ws) ≡ length ws
length-map-some [] = refl
length-map-some (w ∷ ws) = ap suc (length-map-some ws)

map-some-concat :
    (ws : List ℕ) (v : ℕ) → map {B = Option ℕ} some (ws ++ (v ∷ [])) ≡ map some ws ++ (some v ∷ [])
map-some-concat [] v = refl
map-some-concat (w ∷ ws) v = ap (◌∷◌ (some w)) (map-some-concat ws v)

set_cell-end :
    (ws : List ℕ) (x : Option ℕ) (spare : List (Option ℕ)) (v : ℕ)
    → set_cell (map some ws ++ (x ∷ spare)) (length ws) v ≡ map some (ws ++ (v ∷ [])) ++ spare
unfolding set_cell
set_cell-end [] x spare v = refl
set_cell-end (w ∷ ws) x spare v = ap (◌∷◌ (some w)) (set_cell-end ws x spare v)

pub empty-Represents : Represents empty_buffer []
empty-Represents = record {
  spare = [];
  cells = refl;
  counted = refl;
  sized = refl;
  small = omega arith;
}

-- Where there is room, the word goes into the next cell.
push-Represents :
    {b : WordBuffer} (ws : List ℕ) (v : ℕ)
    → Represents b ws
    → b.count < b.capacity
    → Represents (push b v) (ws ++ (v ∷ []))
unfolding push
push-Represents {b} ws v r room = with_spare r.spare r.cells r.sized
  where
    with_spare :
        (spare : List (Option ℕ))
        → b.words ≡ map some ws ++ spare
        → length ws + length spare ≡ b.capacity
        → Represents (push b v) (ws ++ (v ∷ []))
    with_spare [] c s = absurd (omega (arith, r.counted))
    with_spare (x ∷ spare) c s = record {
      spare = spare;
      cells = rw (c, r.counted) (set_cell-end ws x spare v);
      counted = omega (arith, r.counted, length-append ws (v ∷ []));
      sized = omega (arith, length-append ws (v ∷ []));
      small = r.small;
    }

grow-Represents :
    {b : WordBuffer} (ws : List ℕ) (new_cap : ℕ)
    → Represents b ws
    → b.capacity ≤ new_cap
    → new_cap * 4 < 2 ^ 63
    → Represents (record b { words = resize b.words new_cap; capacity = new_cap }) ws
unfolding resize
grow-Represents {b} ws new_cap r more small = record {
  spare = r.spare ++ replicate (new_cap - length b.words) none;
  cells = rw r.cells (append_assoc (map some ws) r.spare _);
  counted = r.counted;
  sized = omega (
    arith,
    length-append r.spare (replicate (new_cap - length b.words) none),
    length-replicate {A = Option ℕ} (new_cap - length b.words) none,
    ap length r.cells,
    length-append (map some ws) r.spare,
    length-map-some ws,
  );
  small = small;
}

-- The size that `realloc` is asked for, without wrap-around.
pub next_capacity_lem :
    (capacity : ℕ)
    → capacity * 4 < 2 ^ 63
    → (capacity < next_capacity capacity)
      × (u64 (next_capacity capacity * 4) ≡ next_capacity capacity * 4)
unfolding next_capacity
next_capacity_lem capacity h = ground arith

-- What `append_word` comes to: the word is added at the end; or an allocation was refused while
-- the array was full, and the -1 is returned.
abbrev pub Appends : (ℕ → Bool) → WordBuffer → List ℕ → ℕ → Type 0
Appends can_alloc b ws v =
    ((b' : WordBuffer) × (append_word can_alloc b v ≡ some b') × Represents b' (ws ++ (v ∷ [])))
    ⊎ ((append_word can_alloc b v ≡ none)
        × (b.count ≡ b.capacity)
        × (can_alloc (next_capacity b.capacity * 4) ≡ false))

-- On every array that represents `ws`, `append_word` represents `ws` with the word added at the
-- end, unless `realloc` refuses; the capacity computations do not wrap around, if no allocation of
-- 2 ^ 63 bytes or more is granted.
pub append_word-Appends :
    (can_alloc : ℕ → Bool) (b : WordBuffer) (ws : List ℕ) (v : ℕ)
    → ((n : ℕ) → can_alloc n ≡ true → n < 2 ^ 63)
    → Represents b ws
    → Appends can_alloc b ws v
append_word-Appends can_alloc b ws v bound r = elim (Bool-cases (b.count == b.capacity)) [
  | inr room ↦ inl (
    push b v,
    unfold append_word in rw room refl,
    push-Represents ws v r (ground (arith, r.sized, r.counted)),
  )
  | inl full ↦
      let new_cap = next_capacity b.capacity in
      let grown = record b { words = resize b.words new_cap; capacity = new_cap } in
      let (more, exact) = next_capacity_lem b.capacity r.small in
      elim (Bool-cases (can_alloc (new_cap * 4))) [
        | inl granted ↦ inl (
          push grown v,
          unfold append_word in rw (full, exact, granted) refl,
          push-Represents {b = grown} ws v
              (grow-Represents ws new_cap r (omega arith) (bound (new_cap * 4) granted))
              (ground arith),
        )
        | inr refused ↦
            inr (unfold append_word in rw (full, exact, refused) refl, ground arith, refused)
      ]
]
