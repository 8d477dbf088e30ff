-- ===== src/Examples/Mapped/Parts.antt =====
-- The accesses of composed drivers.
use qar_mvp.Prelude.{ℕ, Bool}
use qar_mvp.Mmio.{Io, ret, read, write, hung, Accesses, wait_for, poll_until, ◌>>=◌, ◌>>◌}
use qar_mvp.Mmio.Device.{Accesses->>=}
use qar_mvp.Mmio.Until.{poll_until-Accesses}
use qar_mvp.Hal.Windows.Defs.{wait_for-Accesses}

-- A polling loop on a register of a set, and what follows it.
pub poll_then :
    {A : Type 0} (P : ℕ → Type 0) (done : ℕ → Bool) (budget a : ℕ) (f : ℕ → Io A)
    → P a
    → ((n : ℕ) → Accesses P (f n))
    → Accesses P (poll_until done budget a >>= f)
poll_then P done budget a f h g =
    Accesses->>= P (poll_until done budget a) f (poll_until-Accesses P done budget a h) g

pub wait_then :
    {A : Type 0} (P : ℕ → Type 0) (budget a mask : ℕ) (k : Io A)
    → P a
    → Accesses P k
    → Accesses P (wait_for budget a mask >> k)
wait_then P budget a mask k h g =
    Accesses->>= P (wait_for budget a mask) (λ _. k) (wait_for-Accesses P budget a mask h) (λ x. g)

pub then_part :
    {A : Type 0} (P : ℕ → Type 0) (m : Io (Unit {0})) (k : Io A)
    → Accesses P m
    → Accesses P k
    → Accesses P (m >> k)
then_part P m k h g = Accesses->>= P m (λ _. k) h (λ x. g)

pub reassociate :
    {A B C : Type 0} (P : ℕ → Type 0) (m : Io A) (k : A → Io B) (f : B → Io C)
    → Accesses P (m >>= λ x. k x >>= f)
    → Accesses P (m >>= k >>= f)
reassociate P (ret x) k f h = h
reassociate P (read a g) k f h = (h.0, λ v u. reassociate P (g v) k f (h.1 v u))
reassociate P (write a v m) k f h = (h.0, h.1, reassociate P m k f h.2)
reassociate P hung k f h = tt
