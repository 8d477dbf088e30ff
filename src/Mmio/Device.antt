-- ===== src/Mmio/Device.antt =====
-- What the drivers rely on of the hardware: a configuration register of `width a` bits at address
-- `a` holds what was written to it, whatever else is accessed. Data, status and command registers
-- have width 0, and nothing is assumed of them.
use qar_mvp.Prelude.{
  ℕ, ◌^◌, ◌<◌, ◌≡◌, refl, ◌∙◌, ◌≢◌, inl, inr, Bool, true, false, ◌&&◌, Option, none, some, List, [],
  ◌∷◌, arith, ◌==◌, ==_iff, Bool-cases, if◌then◌else◌, All,
}
use qar_mvp.Mmio.{Io, ret, read, write, hung, Bus, exec, Accesses, ◌>>=◌}

pub record Device {S : Type 0} (bus : Bus S) (width : ℕ → ℕ) : Type 0 where
  pub peek : ℕ → S → ℕ
  pub peek-put_self : (a v : ℕ) (s : S) → 0 < width a → v < 2 ^ width a → peek a (bus.put a v s) ≡ v
  pub peek-put_ne : (a b v : ℕ) (s : S) → 0 < width a → a ≢ b → peek a (bus.put b v s) ≡ peek a s
  pub peek-lt : (a : ℕ) (s : S) → peek a s < 2 ^ width a
  pub get_value : (a : ℕ) (s : S) → 0 < width a → (bus.get a s).0 ≡ peek a s
  pub peek-get : (a b : ℕ) (s : S) → 0 < width a → peek a (bus.get b s).1 ≡ peek a s

-- The writes of a run, the latest first.
abbrev pub Log : Type 0
Log = List (ℕ × ℕ)

abbrev pub last_write : ℕ → Log → Option ℕ
last_write a [] = none
last_write a ((b, v) ∷ log) = if a == b then some v else last_write a log

-- Whatever is read, the driver ends, and `Q` holds of its writes on top of `log`.
abbrev pub Ends : {A : Type 0} → (Log → Type 0) → Log → Io A → Type 0
Ends Q log (ret x) = Q log
Ends Q log (read a k) = (v : ℕ) → Ends Q log (k v)
Ends Q log (write a v k) = Ends Q ((a, v) ∷ log) k
Ends Q log hung = ⊥

module _ {S : Type 0} (bus : Bus S) (width : ℕ → ℕ) (dev : Device bus width) where
  open dev use {peek, peek-put_self, peek-put_ne, get_value, peek-get}

  -- Each configuration register holds what was last written to it.
  abbrev pub Reflects : Log → S → Type 0
  Reflects log s =
      (a v : ℕ) → 0 < width a → v < 2 ^ width a → last_write a log ≡ some v → peek a s ≡ v

  Reflects-put :
      (b w : ℕ) (log : Log) (s : S) → Reflects log s → Reflects ((b, w) ∷ log) (bus.put b w s)
  Reflects-put b w log s h a v wide fits e = elim (Bool-cases (a == b)) [
    | inl same ↦ ground (arith, peek-put_self b w s, (==_iff a b).0 same)
    | inr other ↦ ground (arith, peek-put_ne a b w s, h a v)
  ]

  Reflects-get : (b : ℕ) (log : Log) (s : S) → Reflects log s → Reflects log (bus.get b s).1
  Reflects-get b log s h a v wide fits e = peek-get a b s wide ∙ h a v wide fits e

  -- The device after a run, and the writes that led there.
  pub record Outcome {A : Type 0} (Q : Log → Type 0) (io : Io A) (s : S) : Type 0 where
    pub result : A
    pub after : S
    pub writes : Log
    pub runs : exec bus io s ≡ some (result, after)
    pub meets : Q writes
    pub reflects : Reflects writes after

  pub Ends-Outcome :
      {A : Type 0} (Q : Log → Type 0) (io : Io A) (log : Log) (s : S)
      → Ends Q log io
      → Reflects log s
      → Outcome Q io s
  Ends-Outcome Q (ret x) log s h r = record {
    result = x;
    after = s;
    writes = log;
    runs = refl;
    meets = h;
    reflects = r;
  }
  Ends-Outcome Q (read a k) log s h r =
      let o =
        Ends-Outcome Q (k (bus.get a s).0) log (bus.get a s).1 (h (bus.get a s).0)
          (Reflects-get a log s r) in
      record {
        result = o.result;
        after = o.after;
        writes = o.writes;
        runs = o.runs;
        meets = o.meets;
        reflects = o.reflects;
      }
  Ends-Outcome Q (write a v k) log s h r =
      let o = Ends-Outcome Q k ((a, v) ∷ log) (bus.put a v s) h (Reflects-put a v log s r) in
      record {
        result = o.result;
        after = o.after;
        writes = o.writes;
        runs = o.runs;
        meets = o.meets;
        reflects = o.reflects;
      }
  Ends-Outcome Q hung log s h r = absurd h

-- A table of registers and the values that they are to hold.
abbrev agrees_at : Option ℕ → ℕ → Bool
agrees_at none v = false
agrees_at (some w) v = w == v

abbrev pub agrees : Log → Log → Bool
agrees log [] = true
agrees log ((a, v) ∷ table) = agrees_at (last_write a log) v && agrees log table

pub agrees-All :
    (log table : Log)
    → agrees log table ≡ true
    → All (λ row. last_write row.0 log ≡ some row.1) table
agrees-All log [] h = tt
agrees-All log ((a, v) ∷ table) h = (ground arith, agrees-All log table (ground arith))

-- Every register of the table has enough bits for its value.
abbrev pub Holds : (ℕ → ℕ) → Log → Type 0
Holds width = All (λ row. (0 < width row.0) × (row.1 < 2 ^ width row.0))

module _ {S : Type 0} (bus : Bus S) (width : ℕ → ℕ) (dev : Device bus width) where
  pub Reflects-All :
      (log table : Log) (s : S)
      → Reflects bus width dev log s
      → All (λ row. last_write row.0 log ≡ some row.1) table
      → Holds width table
      → All (λ row. dev.peek row.0 s ≡ row.1) table
  Reflects-All log [] s r h w = tt
  Reflects-All log ((a, v) ∷ table) s r h w =
      (r a v w.0.0 w.0.1 h.0, Reflects-All log table s r h.1 w.1)

-- The accesses of a composed driver are those of its parts.
pub Accesses->>= :
    {A B : Type 0} (P : ℕ → Type 0) (m : Io A) (f : A → Io B)
    → Accesses P m
    → ((x : A) → Accesses P (f x))
    → Accesses P (m >>= f)
Accesses->>= P (ret x) f h g = g x
Accesses->>= P (read a k) f h g = (h.0, λ v u. Accesses->>= P (k v) f (h.1 v u) g)
Accesses->>= P (write a v k) f h g = (h.0, h.1, Accesses->>= P k f h.2 g)
Accesses->>= P hung f h g = tt

pub Accesses-mono :
    {A : Type 0} (P Q : ℕ → Type 0) (m : Io A) → ((a : ℕ) → P a → Q a) → Accesses P m → Accesses Q m
Accesses-mono P Q (ret x) f h = tt
Accesses-mono P Q (read a k) f h = (f a h.0, λ v u. Accesses-mono P Q (k v) f (h.1 v u))
Accesses-mono P Q (write a v k) f h = (f a h.0, h.1, Accesses-mono P Q k f h.2)
Accesses-mono P Q hung f h = tt
