-- ===== src/Hal/Interrupts.antt =====
-- The interrupt masks: `qar_*_enable_irq` and `qar_*_disable_irq` of devkit/hal.
use qar_mvp.Prelude.{ℕ, ◌-◌, ◌<◌, min, max, bit_at, ◌≡◌, ◌≢◌, refl, ap, ◌∙◌, some, arith, IsU32}
use qar_mvp.Mmio.{Io, Bus, exec, store, set_bits, clear_bits, ◌>>◌}
use qar_mvp.Mmio.Device.{Device}
use qar_mvp.Mmio.Masks.{set_bits-Updated, clear_bits-Updated, bit_at_set, bit_at_clear}
use qar_mvp.Hal.Uart
use qar_mvp.Hal.Timer
use qar_mvp.Hal.Can

-- The headers with a read-modify-write of the mask. The ADC has no function that disables.
pub data Masked : Type 0 where
  uart timer can : Masked

abbrev pub irq_en : Masked → ℕ → ℕ
irq_en uart base = Uart.reg base Uart.Reg.irq_en
irq_en timer base = Timer.reg base Timer.Reg.irq_en
irq_en can base = Can.reg base Can.Reg.irq_en

abbrev pub enable_irq : Masked → ℕ → ℕ → Io (Unit {0})
enable_irq uart = Uart.enable_irq
enable_irq timer = Timer.enable_irq
enable_irq can = Can.enable_irq

abbrev pub disable_irq : Masked → ℕ → ℕ → Io (Unit {0})
disable_irq uart = Uart.disable_irq
disable_irq timer = Timer.disable_irq
disable_irq can = Can.disable_irq

module _ {S : Type 0} (bus : Bus S) (width : ℕ → ℕ) (dev : Device bus width) where
  open dev use {peek, peek-put_ne}

  -- The driver ends, changes bit `k` of the mask register at `a` as `f` says, and leaves every
  -- other configuration register alone.
  abbrev pub ChangesBits : ℕ → (ℕ → ℕ → ℕ) → Io (Unit {0}) → S → Type 0
  ChangesBits a f io s =
      (t : S) × (exec bus io s ≡ some (tt, t))
      × ((k : ℕ) → k < 32 → bit_at (peek a t) k ≡ f k (bit_at (peek a s) k))
      × ((b : ℕ) → 0 < width b → b ≢ a → peek b t ≡ peek b s)

  set_bits-ChangesBits :
      (a mask : ℕ) (s : S)
      → width a ≡ 32
      → IsU32 mask
      → ChangesBits a (λ k old. max old (bit_at mask k)) (set_bits a mask) s
  set_bits-ChangesBits a mask s w fits =
      let (t, runs, u) = set_bits-Updated bus width dev a mask s w fits in
      (t, runs, λ k h. ap (λ v. bit_at v k) u.held ∙ bit_at_set (peek a s) mask k, u.others)

  clear_bits-ChangesBits :
      (a mask : ℕ) (s : S)
      → width a ≡ 32
      → IsU32 mask
      → ChangesBits a (λ k old. min old (1 - bit_at mask k)) (clear_bits a mask) s
  clear_bits-ChangesBits a mask s w fits =
      let (t, runs, u) = clear_bits-Updated bus width dev a mask s w in
      (
        t,
        runs,
        λ k h. ap (λ v. bit_at v k) u.held ∙ bit_at_clear (peek a s) mask k fits h,
        u.others,
      )

  -- A write to an address that is no configuration register may come first.
  ChangesBits-put :
      (a st v : ℕ) (f : ℕ → ℕ → ℕ) (io : Io (Unit {0})) (s : S)
      → width a ≡ 32
      → width st ≡ 0
      → ChangesBits a f io (bus.put st v s)
      → ChangesBits a f (store st v >> io) s
  ChangesBits-put a st v f io s w z (t, runs, bits, others) =
      let same : (b : ℕ) → 0 < width b → peek b (bus.put st v s) ≡ peek b s =
        λ b wide. peek-put_ne b st v s wide (λ e. omega (arith, ap width e)) in
      (
        t,
        runs,
        λ k h. bits k h ∙ ap (λ x. f k (bit_at x k)) (same a (omega (arith, w))),
        λ b wide ne. others b wide ne ∙ same b wide,
      )

  -- Enabling sets the bits of the mask, keeps the others, and disturbs no other configuration
  -- register; the CAN version first clears the sticky flags, in a status register.
  pub enable_irq-ChangesBits :
      (m : Masked) (base mask : ℕ) (s : S)
      → width (irq_en m base) ≡ 32
      → (m ≡ can → width (Can.reg base Can.Reg.irq_status) ≡ 0)
      → IsU32 mask
      → ChangesBits (irq_en m base) (λ k old. max old (bit_at mask k)) (enable_irq m base mask) s
  unfolding Uart.enable_irq Timer.enable_irq Can.enable_irq
  enable_irq-ChangesBits uart base mask s w z fits = set_bits-ChangesBits _ mask s w fits
  enable_irq-ChangesBits timer base mask s w z fits = set_bits-ChangesBits _ mask s w fits
  enable_irq-ChangesBits can base mask s w z fits =
      ChangesBits-put _ _ mask (λ k old. max old (bit_at mask k)) (set_bits _ mask) s w (z refl)
        (set_bits-ChangesBits _ mask _ w fits)

  -- Disabling clears the bits of the mask, keeps the others, and disturbs no other configuration
  -- register.
  pub disable_irq-ChangesBits :
      (m : Masked) (base mask : ℕ) (s : S)
      → width (irq_en m base) ≡ 32
      → IsU32 mask
      → ChangesBits
          (irq_en m base)
          (λ k old. min old (1 - bit_at mask k))
          (disable_irq m base mask)
          s
  unfolding Uart.disable_irq Timer.disable_irq Can.disable_irq
  disable_irq-ChangesBits uart base mask s w fits = clear_bits-ChangesBits _ mask s w fits
  disable_irq-ChangesBits timer base mask s w fits = clear_bits-ChangesBits _ mask s w fits
  disable_irq-ChangesBits can base mask s w fits = clear_bits-ChangesBits _ mask s w fits

  -- On a device whose mask register has 32 bits, for a 32-bit mask, and where the interrupt status of
  -- CAN, which `qar_can_enable_irq` writes first, is no configuration register: enabling sets the bits
  -- of the mask, disabling clears them, and both keep the other bits and every other configuration
  -- register.
  pub masks-ChangesBits :
      (m : Masked) (base mask : ℕ) (s : S)
      → width (irq_en m base) ≡ 32
      → (m ≡ can → width (Can.reg base Can.Reg.irq_status) ≡ 0)
      → IsU32 mask
      → ChangesBits (irq_en m base) (λ k old. max old (bit_at mask k)) (enable_irq m base mask) s
        × ChangesBits
            (irq_en m base)
            (λ k old. min old (1 - bit_at mask k))
            (disable_irq m base mask)
            s
  masks-ChangesBits m base mask s w z fits =
      (enable_irq-ChangesBits m base mask s w z fits, disable_irq-ChangesBits m base mask s w fits)
