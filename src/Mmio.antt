-- ===== src/Mmio.antt =====
-- Volatile register access, devkit/hal/mmio.h. A driver is the tree of the accesses that it makes:
-- what a read answers is up to the hardware, so a tree branches on it. `hung` stands for a polling
-- loop whose budget of polls is used up; the program has no such outcome, it would go on polling.
pub mod Device
pub mod Polling
pub mod Masks
pub mod Until
use qar_mvp.Prelude.{
  ℕ, zero, suc, ◌+◌, ◌≤◌, ◌<◌, ◌%◌, ◌^◌, u32, IsU32, bit_and, bit_or, complement32, ◌==◌,
  if◌then◌else◌, Bool, true, false, Option, none, some, ◌≡◌,
}

pub data Io (A : Type 0) : Type 0 where
  ret : A → Io A
  read : ℕ → (ℕ → Io A) → Io A
  write : ℕ → ℕ → Io A → Io A
  hung : Io A

infixl 5 ◌>>=◌ ◌>>◌
abbrev pub ◌>>=◌ : {A B : Type 0} → Io A → (A → Io B) → Io B
ret a >>= f = f a
read a k >>= f = read a (λ v. k v >>= f)
write a v k >>= f = write a v (k >>= f)
hung >>= f = hung

abbrev pub ◌>>◌ : {B : Type 0} → Io (Unit {0}) → Io B → Io B
m >> k = m >>= λ _. k

-- The address that `QAR_MMIO32(base, offset)` dereferences, on the 32-bit target.
abbrev pub mmio32 : ℕ → ℕ → ℕ
mmio32 base offset = u32 (base + offset)

-- `x = REG`, `REG = v`, `REG |= mask` and `REG &= ~mask`.
abbrev pub load : ℕ → Io ℕ
load a = read a ret

abbrev pub store : ℕ → ℕ → Io (Unit {0})
store a v = write a v (ret tt)

abbrev pub set_bits : ℕ → ℕ → Io (Unit {0})
set_bits a mask = load a >>= λ v. store a (bit_or v mask)

abbrev pub clear_bits : ℕ → ℕ → Io (Unit {0})
clear_bits a mask = load a >>= λ v. store a (bit_and v (complement32 mask))

-- `while ((REG & mask) == 0) ;` with a budget of polls.
unfoldable pub wait_for : ℕ → ℕ → ℕ → Io (Unit {0})
wait_for zero a mask = hung
wait_for (suc budget) a mask =
    read a (λ v. elim (bit_and v mask) [ zero ↦ wait_for budget a mask | suc _ ↦ ret tt ])

-- `while (!done(REG)) rounds++;` with a budget of polls; the result is the number of rounds.
unfoldable pub poll_until : (ℕ → Bool) → ℕ → ℕ → Io ℕ
poll_until done zero a = hung
poll_until done (suc budget) a =
    read a
      (λ v. elim (done v) [ true ↦ ret 0 | false ↦ poll_until done budget a >>= λ n. ret (n + 1) ])

-- The hardware as the driver sees it; a read may change its state.
pub record Bus (S : Type 0) : Type 0 where
  pub get : ℕ → S → ℕ × S
  pub put : ℕ → ℕ → S → S

abbrev pub exec : {S : Type 0} {A : Type 0} → Bus S → Io A → S → Option (A × S)
exec bus (ret x) s = some (x, s)
exec bus (read a k) s = let r = bus.get a s in exec bus (k r.0) r.1
exec bus (write a v k) s = exec bus k (bus.put a v s)
exec bus hung s = none

-- Whatever the hardware answers to the reads, every address that is used satisfies `P`, and every
-- value that is written fits a register.
abbrev pub Accesses : {A : Type 0} → (ℕ → Type 0) → Io A → Type 0
Accesses P (ret x) = Unit
Accesses P (read a k) = P a × ((v : ℕ) → IsU32 v → Accesses P (k v))
Accesses P (write a v k) = P a × IsU32 v × Accesses P k
Accesses P hung = Unit

-- What follows a part that ends goes on from the state that the part left.
pub exec->>= :
    {S A B : Type 0} (bus : Bus S) (m : Io A) (f : A → Io B) (s : S) {x : A} {t : S}
    → exec bus m s ≡ some (x, t)
    → exec bus (m >>= f) s ≡ exec bus (f x) t
exec->>= bus (ret y) f s e = cc
exec->>= bus (read a k) f s e = exec->>= bus (k (bus.get a s).0) f (bus.get a s).1 e
exec->>= bus (write a v k) f s e = exec->>= bus k f (bus.put a v s) e
exec->>= bus hung f s e = cc

-- What follows a part that does not end is not reached.
pub exec->>=_hung :
    {S A B : Type 0} (bus : Bus S) (m : Io A) (f : A → Io B) (s : S)
    → exec bus m s ≡ none
    → exec bus (m >>= f) s ≡ none
exec->>=_hung bus (ret y) f s e = cc
exec->>=_hung bus (read a k) f s e = exec->>=_hung bus (k (bus.get a s).0) f (bus.get a s).1 e
exec->>=_hung bus (write a v k) f s e = exec->>=_hung bus k f (bus.put a v s) e
exec->>=_hung bus hung f s e = cc
