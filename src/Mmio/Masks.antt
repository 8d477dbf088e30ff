-- ===== src/Mmio/Masks.antt =====
-- `REG |= mask` and `REG &= ~mask` on a configuration register.
use qar_mvp.Prelude.{
  ℕ, ◌-◌, ◌^◌, ◌<◌, min, max, bit_and, bit_or, bit_at, bit_at-bit_and, bit_at-bit_or,
  bit_at_complement, bit_and-le, bit_or-lt, complement32, ◌≡◌, ◌≢◌, refl, ◌∙◌, some, arith, IsU32,
}
use qar_mvp.Mmio.{Bus, exec, set_bits, clear_bits}
use qar_mvp.Mmio.Device.{Device}

module _ {S : Type 0} (bus : Bus S) (width : ℕ → ℕ) (dev : Device bus width) where
  open dev use {peek, peek-put_self, peek-put_ne, get_value, peek-get, peek-lt}

  -- In `t` the word at `a` is `word`, and every other configuration register is as in `s`.
  pub record Updated (a word : ℕ) (s t : S) : Type 0 where
    pub held : peek a t ≡ word
    pub others : (b : ℕ) → 0 < width b → b ≢ a → peek b t ≡ peek b s

  Updated-put :
      (a v : ℕ) (s t : S)
      → width a ≡ 32
      → IsU32 v
      → ((b : ℕ) → 0 < width b → peek b t ≡ peek b s)
      → Updated a v s (bus.put a v t)
  Updated-put a v s t w fits same = record {
    held = peek-put_self a v t (omega (arith, w)) (rw w fits);
    others = λ b wide ne. peek-put_ne b a v t wide ne ∙ same b wide;
  }

  pub set_bits-Updated :
      (a mask : ℕ) (s : S)
      → width a ≡ 32
      → IsU32 mask
      → (t : S) × (exec bus (set_bits a mask) s ≡ some (tt, t))
        × Updated a (bit_or (peek a s) mask) s t
  set_bits-Updated a mask s w fits =
      let value : (bus.get a s).0 ≡ peek a s = get_value a s (omega (arith, w)) in
      let small : peek a s < 2 ^ 32 = rw w at (peek-lt a s) in
      (
        bus.put a (bit_or (bus.get a s).0 mask) (bus.get a s).1,
        refl,
        rw value (
            Updated-put a (bit_or (peek a s) mask) s (bus.get a s).1 w (bit_or-lt 32 _ _ small fits)
              (λ b wide. peek-get b a s wide)),
      )

  pub clear_bits-Updated :
      (a mask : ℕ) (s : S)
      → width a ≡ 32
      → (t : S) × (exec bus (clear_bits a mask) s ≡ some (tt, t))
        × Updated a (bit_and (peek a s) (complement32 mask)) s t
  clear_bits-Updated a mask s w =
      let value : (bus.get a s).0 ≡ peek a s = get_value a s (omega (arith, w)) in
      (
        bus.put a (bit_and (bus.get a s).0 (complement32 mask)) (bus.get a s).1,
        refl,
        rw value (
            Updated-put a (bit_and (peek a s) (complement32 mask)) s (bus.get a s).1 w
              (omega (arith, bit_and-le (peek a s) (complement32 mask)))
              (λ b wide. peek-get b a s wide)),
      )

-- What the two updates do to each bit.
pub bit_at_set : (v mask k : ℕ) → bit_at (bit_or v mask) k ≡ max (bit_at v k) (bit_at mask k)
bit_at_set v mask k = bit_at-bit_or v mask k

pub bit_at_clear :
    (v mask k : ℕ)
    → IsU32 mask
    → k < 32
    → bit_at (bit_and v (complement32 mask)) k ≡ min (bit_at v k) (1 - bit_at mask k)
bit_at_clear v mask k fits h =
    omega (arith, bit_at-bit_and v (complement32 mask) k, bit_at_complement 32 mask k fits h)
