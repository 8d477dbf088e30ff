-- ===== src/Mmio/Polling.antt =====
-- The polling loops: when they end, and in which state.
use qar_mvp.Prelude.{ℕ, zero, suc, ◌<◌, bit_and, ◌≡◌, refl, ◌∙◌, none, arith, ◌⊎◌, inl, inr, ◌≢◌}
use native.Mathlib.Decide.{ℕ_discrete}
use qar_mvp.Mmio.{Io, ret, Bus, exec, wait_for, ◌>>◌}

module _ {S : Type 0} (bus : Bus S) (a mask : ℕ) where
  -- The hardware after `n` reads of the register.
  abbrev pub polled : ℕ → S → S
  polled zero s = s
  polled (suc n) s = polled n (bus.get a s).1

  -- The flag is clear in `n` reads, and set in the next one.
  abbrev pub ReadyAfter : ℕ → S → Type 0
  ReadyAfter zero s = bit_and (bus.get a s).0 mask ≢ 0
  ReadyAfter (suc n) s = (bit_and (bus.get a s).0 mask ≡ 0) × ReadyAfter n (bus.get a s).1

  -- The flag is clear in each of the next `n` reads.
  abbrev pub Busy : ℕ → S → Type 0
  Busy zero s = Unit
  Busy (suc n) s = (bit_and (bus.get a s).0 mask ≡ 0) × Busy n (bus.get a s).1

  module _ {A : Type 0} (k : Io A) where
    -- One round of the loop, followed by `k`.
    wait_for_round :
        (budget : ℕ) (s : S)
        → ((bit_and (bus.get a s).0 mask ≡ 0)
            → exec bus (wait_for (suc budget) a mask >> k) s
              ≡ exec bus (wait_for budget a mask >> k) (bus.get a s).1)
          × (bit_and (bus.get a s).0 mask ≢ 0
              → exec bus (wait_for (suc budget) a mask >> k) s ≡ exec bus k (bus.get a s).1)
    unfolding wait_for
    wait_for_round budget s = (
      clear (bit_and (bus.get a s).0 mask) (wait_for budget a mask) (bus.get a s).1,
      is_set (bit_and (bus.get a s).0 mask) (wait_for budget a mask) (bus.get a s).1,
    )
      where
        clear :
            (x : ℕ) (again : Io (Unit {0})) (t : S)
            → x ≡ 0
            → exec bus ((elim x [ zero ↦ again | suc _ ↦ ret tt ]) >> k) t ≡ exec bus (again >> k) t
        clear zero again t h = refl
        clear (suc x) again t h = absurd (omega arith)

        is_set :
            (x : ℕ) (again : Io (Unit {0})) (t : S)
            → x ≢ 0
            → exec bus ((elim x [ zero ↦ again | suc _ ↦ ret tt ]) >> k) t ≡ exec bus k t
        is_set zero again t h = absurd (h refl)
        is_set (suc x) again t h = refl

    -- If the flag comes up within the budget, `k` runs from the state behind the polls.
    pub wait_for_ready :
        (n budget : ℕ) (s : S)
        → n < budget
        → ReadyAfter n s
        → exec bus (wait_for budget a mask >> k) s ≡ exec bus k (polled (suc n) s)
    wait_for_ready n zero s h r = absurd (omega arith)
    wait_for_ready zero (suc budget) s h r = (wait_for_round budget s).1 r
    wait_for_ready (suc n) (suc budget) s h r =
        (wait_for_round budget s).0 r.0 ∙ wait_for_ready n budget (bus.get a s).1 (omega arith) r.1

    -- If it does not, the loop goes on, and `k` is not reached.
    pub wait_for-Busy :
        (budget : ℕ) (s : S) → Busy budget s → exec bus (wait_for budget a mask >> k) s ≡ none
    wait_for-Busy zero s b = unfold wait_for in refl
    wait_for-Busy (suc budget) s b =
        (wait_for_round budget s).0 b.0 ∙ wait_for-Busy budget (bus.get a s).1 b.1

  -- One of the two holds.
  pub ready_or_Busy :
      (budget : ℕ) (s : S) → ((n : ℕ) × (n < budget) × ReadyAfter n s) ⊎ Busy budget s
  ready_or_Busy zero s = inr tt
  ready_or_Busy (suc budget) s = elim (ℕ_discrete (bit_and (bus.get a s).0 mask) 0) [
    | no up ↦ inl (0, omega arith, up)
    | yes down ↦ elim (ready_or_Busy budget (bus.get a s).1) [
      | inl (n, below, up) ↦ inl (suc n, omega arith, (down, up))
      | inr busy ↦ inr (down, busy)
    ]
  ]
