-- ===== src/Qhex/Buffer.antt =====
-- The growing array of devkit/tools/qhex/main.c: `word_buffer` and `append_word`.
pub mod Laws
pub mod Growth
use qar_mvp.Prelude.{
  ℕ, zero, suc, ◌+◌, ◌-◌, ◌*◌, Bool, true, false, Option, none, some, List, [], ◌∷◌, ◌++◌, ◌==◌,
  if◌then◌else◌, length, replicate, u64,
}

-- `words` holds the cells of the array; `none` is a cell that was not written yet.
pub record WordBuffer : Type 0 where
  pub words : List (Option ℕ)
  pub count : ℕ
  pub capacity : ℕ

-- `word_buffer buf = {0};`
abbrev pub empty_buffer : WordBuffer
empty_buffer = record { words = []; count = 0; capacity = 0 }

-- A write to a cell; one out of bounds changes nothing (the laws show that there is none).
unfoldable pub set_cell : List (Option ℕ) → ℕ → ℕ → List (Option ℕ)
set_cell [] i v = []
set_cell (x ∷ xs) zero v = some v ∷ xs
set_cell (x ∷ xs) (suc i) v = x ∷ set_cell xs i v

-- `realloc` to `cells` cells keeps the old ones, and leaves the new ones unwritten.
unfoldable pub resize : List (Option ℕ) → ℕ → List (Option ℕ)
resize words cells = words ++ replicate (cells - length words) none

unfoldable pub push : WordBuffer → ℕ → WordBuffer
push b v = record b { words = set_cell b.words b.count v; count = b.count + 1 }

-- The capacity to grow to.
unfoldable pub next_capacity : ℕ → ℕ
next_capacity capacity = if capacity == 0 then 64 else u64 (capacity * 2)

-- `none` is the -1 of a `realloc` that fails; `can_alloc` says which sizes in bytes are granted.
unfoldable pub append_word : (ℕ → Bool) → WordBuffer → ℕ → Option WordBuffer
append_word can_alloc b v =
    if b.count == b.capacity
    then (let new_cap = next_capacity b.capacity in
        if can_alloc (u64 (new_cap * 4))
        then some (push (record b { words = resize b.words new_cap; capacity = new_cap }) v)
        else none)
    else some (push b v)
