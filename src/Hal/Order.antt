-- ===== src/Hal/Order.antt =====
-- The order of the accesses: a peripheral is configured before it is enabled, and a CAN frame is
-- in the mailbox before it is sent.
use qar_mvp.Prelude.{
  ℕ, ◌^◌, ◌<◌, bit_or, bit_at, bit_at-bit_or, bit_at_zero, zero, suc, ◌≡◌, refl, ◌∙◌, sym, some,
  arith, IsU32, IsByte,
}
use qar_mvp.Mmio.{Io, ret, Bus, exec, store, ◌>>◌}
use qar_mvp.Mmio.Device.{Device}
use qar_mvp.Hal.Windows.Defs.{IsBase}
use qar_mvp.Hal.Uart
use qar_mvp.Hal.Timer
use qar_mvp.Hal.Can
use qar_mvp.Hal.Spi
use qar_mvp.Hal.I2c

pub data Peripheral : Type 0 where
  uart timer can spi i2c : Peripheral

-- `qar_*_init`: its rate (divider, prescaler or bit timing) and its control flags. I2C takes none.
abbrev pub init : Peripheral → ℕ → ℕ → ℕ → Io (Unit {0})
init uart base rate flags = Uart.init base rate flags
init timer base rate flags = Timer.init base rate flags
init can base rate flags = Can.init base rate flags
init spi base rate flags = Spi.init base rate flags
init i2c base rate flags = I2c.init base rate

abbrev pub rate_reg : Peripheral → ℕ → ℕ
rate_reg uart base = Uart.reg base Uart.Reg.baud
rate_reg timer base = Timer.reg base Timer.Reg.prescale
rate_reg can base = Can.reg base Can.Reg.bittime
rate_reg spi base = Spi.reg base Spi.Reg.clkdiv
rate_reg i2c base = I2c.reg base I2c.Reg.clkdiv

abbrev pub ctrl_reg : Peripheral → ℕ → ℕ
ctrl_reg uart base = Uart.reg base Uart.Reg.ctrl
ctrl_reg timer base = Timer.reg base Timer.Reg.ctrl
ctrl_reg can base = Can.reg base Can.Reg.ctrl
ctrl_reg spi base = Spi.reg base Spi.Reg.ctrl
ctrl_reg i2c base = I2c.reg base I2c.Reg.ctrl

-- The flags that the caller gave.
abbrev pub given : Peripheral → ℕ → ℕ
given i2c flags = 0
given uart flags = flags
given timer flags = flags
given can flags = flags
given spi flags = flags

-- What follows the write of the control word: the UART also masks its interrupts, and sets up the
-- idle detector and the LIN break.
abbrev pub tail_of : Peripheral → ℕ → Io (Unit {0})
tail_of uart base = do
  store (Uart.reg base Uart.Reg.irq_en) 0
  store (Uart.reg base Uart.Reg.idle_cfg) 0
  store (Uart.reg base Uart.Reg.lin_ctrl) 13
tail_of timer base = ret tt
tail_of can base = ret tt
tail_of spi base = ret tt
tail_of i2c base = ret tt

one_bit : (k : ℕ) → 0 < k → bit_at 1 k ≡ 0
one_bit zero h = absurd (omega arith)
one_bit (suc k) h = bit_at_zero k

-- The control word that the caller's flags give.
with_enable :
    (flags : ℕ)
    → (bit_at (bit_or flags 1) 0 ≡ 1)
      × ((k : ℕ) → 0 < k → bit_at (bit_or flags 1) k ≡ bit_at flags k)
with_enable flags = (
  omega (arith, bit_at-bit_or flags 1 0),
  λ k h. omega (arith, bit_at-bit_or flags 1 k, one_bit k h),
)

module _ {S : Type 0} (bus : Bus S) (width : ℕ → ℕ) (dev : Device bus width) where
  open dev use {peek, peek-put_self, peek-put_ne}

  -- `word` is written to the control register once the rate register holds `rate`; it has the
  -- enable bit, and otherwise the bits of `flags`.
  pub record Enables (p : Peripheral) (base rate flags : ℕ) (s : S) : Type 0 where
    pub before : S
    pub word : ℕ
    pub runs :
        exec bus (init p base rate flags) s
        ≡ exec bus (tail_of p base) (bus.put (ctrl_reg p base) word before)
    pub configured : peek (rate_reg p base) before ≡ rate
    pub enable : bit_at word 0 ≡ 1
    pub rest : (k : ℕ) → 0 < k → bit_at word k ≡ bit_at (given p flags) k

  Enables-put :
      (p : Peripheral) (base rate flags word : ℕ) (s : S)
      → 0 < width (rate_reg p base)
      → rate < 2 ^ width (rate_reg p base)
      → exec bus (init p base rate flags) s
        ≡ exec bus
            (tail_of p base)
            (bus.put (ctrl_reg p base) word (bus.put (rate_reg p base) rate s))
      → (bit_at word 0 ≡ 1) × ((k : ℕ) → 0 < k → bit_at word k ≡ bit_at (given p flags) k)
      → Enables p base rate flags s
  Enables-put p base rate flags word s wide fits runs bits = record {
    before = bus.put (rate_reg p base) rate s;
    word = word;
    runs = runs;
    configured = peek-put_self _ rate s wide fits;
    enable = bits.0;
    rest = bits.1;
  }

  -- Each `qar_*_init` writes the rate before the control word that enables the peripheral, and the
  -- other bits of that word are those of the flags that the caller gave.
  pub init-Enables :
      (p : Peripheral) (base rate flags : ℕ) (s : S)
      → 0 < width (rate_reg p base)
      → rate < 2 ^ width (rate_reg p base)
      → Enables p base rate flags s
  unfolding Uart.init Timer.init Can.init Spi.init I2c.init
  init-Enables uart base rate flags s w h =
      Enables-put uart base rate flags _ s w h refl (with_enable flags)
  init-Enables timer base rate flags s w h =
      Enables-put timer base rate flags _ s w h refl (with_enable flags)
  init-Enables can base rate flags s w h =
      Enables-put can base rate flags _ s w h refl (with_enable flags)
  init-Enables spi base rate flags s w h =
      Enables-put spi base rate flags _ s w h refl (with_enable flags)
  init-Enables i2c base rate flags s w h =
      Enables-put i2c base rate flags 1 s w h refl
        (refl, λ k above. one_bit k above ∙ sym (bit_at_zero k))

  -- The mailbox at the moment of the send command.
  pub record Mailbox (base id data0 data1 dlc : ℕ) (t : S) : Type 0 where
    pub has_id : peek (Can.reg base Can.Reg.tx_id) t ≡ id
    pub has_dlc : peek (Can.reg base Can.Reg.tx_dlc) t ≡ dlc
    pub has_data0 : peek (Can.reg base Can.Reg.tx_data0) t ≡ data0
    pub has_data1 : peek (Can.reg base Can.Reg.tx_data1) t ≡ data1

  -- `qar_can_send_word` ends with the send command, and at that moment the mailbox holds the frame.
  pub send_word-Mailbox :
      (base id data0 data1 dlc : ℕ) (s : S)
      → IsBase base 0x48
      → IsU32 id
      → IsU32 data0
      → IsU32 data1
      → IsByte dlc
      → (width (Can.reg base Can.Reg.tx_id) ≡ 32)
        × (width (Can.reg base Can.Reg.tx_dlc) ≡ 32)
        × (width (Can.reg base Can.Reg.tx_data0) ≡ 32)
        × (width (Can.reg base Can.Reg.tx_data1) ≡ 32)
      → (t : S) × (exec bus (Can.send_word base id data0 data1 dlc) s
          ≡ some (tt, bus.put (Can.reg base Can.Reg.tx_cmd) 1 t))
        × Mailbox base id data0 data1 dlc t
  unfolding Can.send_word
  send_word-Mailbox base id data0 data1 dlc s h hi h0 h1 hd (wi, wd, w0, w1) =
      let s1 = bus.put (Can.reg base Can.Reg.tx_id) id s in
      let s2 = bus.put (Can.reg base Can.Reg.tx_dlc) dlc s1 in
      let s3 = bus.put (Can.reg base Can.Reg.tx_data0) data0 s2 in
      let s4 = bus.put (Can.reg base Can.Reg.tx_data1) data1 s3 in
      (
        s4,
        refl,
        record {
          has_id =
              peek-put_ne _ _ data1 s3 (omega (arith, wi)) (omega arith)
              ∙ peek-put_ne _ _ data0 s2 (omega (arith, wi)) (omega arith)
              ∙ peek-put_ne _ _ dlc s1 (omega (arith, wi)) (omega arith)
              ∙ peek-put_self _ id s (omega (arith, wi)) (rw wi hi);
          has_dlc =
              peek-put_ne _ _ data1 s3 (omega (arith, wd)) (omega arith)
              ∙ peek-put_ne _ _ data0 s2 (omega (arith, wd)) (omega arith)
              ∙ peek-put_self _ dlc s1 (omega (arith, wd)) (rw wd (omega arith));
          has_data0 =
              peek-put_ne _ _ data1 s3 (omega (arith, w0)) (omega arith)
              ∙ peek-put_self _ data0 s2 (omega (arith, w0)) (rw w0 h0);
          has_data1 = peek-put_self _ data1 s3 (omega (arith, w1)) (rw w1 h1);
        },
      )
