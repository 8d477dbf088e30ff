-- ===== src/Mmio/Until.antt =====
-- The loops that poll a register until a test on it holds.
use qar_mvp.Prelude.{
  ℕ, zero, suc, ◌+◌, ◌<◌, ◌≡◌, refl, ap, ◌∙◌, Bool, true, false, none, some, Bool-cases, inl, inr,
  ◌⊎◌, arith,
}
use qar_mvp.Mmio.Device.{Accesses->>=}
use qar_mvp.Mmio.{Io, ret, Bus, exec, exec->>=, exec->>=_hung, poll_until, Accesses, ◌>>=◌}

module _ {S : Type 0} (bus : Bus S) (a : ℕ) (done : ℕ → Bool) where
  -- The hardware after `n` reads of the register.
  abbrev pub after_reads : ℕ → S → S
  after_reads zero s = s
  after_reads (suc n) s = after_reads n (bus.get a s).1

  -- The test fails on `n` reads, and holds on the next one.
  abbrev pub DoneAfter : ℕ → S → Type 0
  DoneAfter zero s = done (bus.get a s).0 ≡ true
  DoneAfter (suc n) s = (done (bus.get a s).0 ≡ false) × DoneAfter n (bus.get a s).1

  -- The test fails on each of the next `n` reads.
  abbrev pub NeverDone : ℕ → S → Type 0
  NeverDone zero s = Unit
  NeverDone (suc n) s = (done (bus.get a s).0 ≡ false) × NeverDone n (bus.get a s).1

  -- What a polling loop with a budget comes to, and the reads that it makes.
  abbrev pub Polls : ℕ → S → Type 0
  Polls budget s =
      ((n : ℕ) × (n < budget)
        × DoneAfter n s
        × (exec bus (poll_until done budget a) s ≡ some (n, after_reads (suc n) s)))
      ⊎ (NeverDone budget s × (exec bus (poll_until done budget a) s ≡ none))

  pub poll_until-Polls : (budget : ℕ) (s : S) → Polls budget s
  unfolding poll_until
  poll_until-Polls zero s = inr (tt, refl)
  poll_until-Polls (suc budget) s = elim (Bool-cases (done (bus.get a s).0)) [
    | inl up ↦ inl (0, omega arith, up, rw (up, exec) refl)
    | inr down ↦ elim (poll_until-Polls budget (bus.get a s).1) [
      | inl (n, below, up, runs) ↦ inl (
        suc n,
        omega arith,
        (down, up),
        rw (down, exec)
            (exec->>= bus (poll_until done budget a) (λ k. ret (k + 1)) (bus.get a s).1 runs
              ∙ ap (λ (k : ℕ). some (k, after_reads (suc (suc n)) s)) (omega arith)),
      )
      | inr (busy, runs) ↦ inr (
        (down, busy),
        rw (down, exec)
            (exec->>=_hung bus (poll_until done budget a) (λ k. ret (k + 1)) (bus.get a s).1 runs),
      )
    ]
  ]

-- A polling loop reads one register.
pub poll_until-Accesses :
    (P : ℕ → Type 0) (done : ℕ → Bool) (budget a : ℕ) → P a → Accesses P (poll_until done budget a)
unfolding poll_until
poll_until-Accesses P done zero a h = tt
poll_until-Accesses P done (suc budget) a h =
    (h, λ v u. answer (poll_until-Accesses P done budget a h) (done v))
  where
    answer :
        Accesses P (poll_until done budget a)
        → (b : Bool)
        → Accesses P (elim b as (λ _. Io ℕ) [
          | true ↦ ret 0
          | false ↦ poll_until done budget a >>= λ n. ret (n + 1)
        ])
    answer ih true = tt
    answer ih false = Accesses->>= P (poll_until done budget a) (λ n. ret (n + 1)) ih (λ n. tt)
