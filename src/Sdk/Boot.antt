-- ===== src/Sdk/Boot.antt =====
-- The state that `qar_sdk_init` leaves behind, devkit/sdk/hal_init.c.
use qar_mvp.Prelude.{
  ℕ, ◌-◌, ◌^◌, ◌≤◌, ◌<◌, bit_and, bit_at, bit_at_cleared, bit_and-le, complement32, ◌≡◌, refl, [],
  ◌∷◌, some, true, arith, All,
}
use qar_mvp.Mmio.{Bus, exec}
use qar_mvp.Mmio.Device.{
  Device, Log, last_write, Ends, Outcome, Ends-Outcome, agrees, agrees-All, Holds, Reflects,
  Reflects-All,
}
use qar_mvp.Sdk.{
  qar_sdk_init, init_gpio_block, init_timer_block, init_uart_block, init_can_block, init_spi_block,
  init_i2c_block, init_adc_block,
}

-- The registers that are 0 at rest, by the addresses of the manuals in docs/peripherals: by the bits
-- that these give, all pins are inputs that no PWM channel drives and no edge watches, no peripheral and
-- no interrupt is enabled, and neither the watchdog nor a PWM channel runs. Registers that the hardware
-- or another register changes are left out, and the interrupt masks of the UARTs and of CAN, which are
-- changed bit by bit, stand in `masked`.
unfoldable pub rest_table : Log
rest_table =
    -- GPIO: direction, interrupt enable, PWM routing, edges and debounce
    (0x40000000, 0)
    ∷ (0x40000014, 0)
    ∷ (0x4000001C, 0)
    ∷ (0x40000020, 0)
    ∷ (0x40000024, 0)
    ∷ (0x40000028, 0)
    ∷ (0x4000002C, 0)
    -- the timer: control, prescaler, interrupt enable, compare periods, watchdog, PWM, capture
    ∷ (0x40005000, 0)
    ∷ (0x40005004, 0)
    ∷ (0x40005010, 0)
    ∷ (0x40005018, 0)
    ∷ (0x40005020, 0)
    ∷ (0x40005024, 0)
    ∷ (0x40005028, 0)
    ∷ (0x40005030, 0)
    ∷ (0x40005034, 0)
    ∷ (0x40005038, 0)
    ∷ (0x4000503C, 0)
    ∷ (0x40005044, 0)
    -- UART0: control, RS-485, idle gap, LIN slave
    ∷ (0x40001008, 0)
    ∷ (0x40001018, 0)
    ∷ (0x4000101C, 0)
    ∷ (0x40001030, 0)
    -- UART1, the same
    ∷ (0x40002008, 0)
    ∷ (0x40002018, 0)
    ∷ (0x4000201C, 0)
    ∷ (0x40002030, 0)
    -- CAN: control, filter
    ∷ (0x40003000, 0)
    ∷ (0x40003018, 0)
    ∷ (0x4000301C, 0)
    -- SPI: control, interrupt enable
    ∷ (0x40004000, 0)
    ∷ (0x40004018, 0)
    -- I2C: control, interrupt enable
    ∷ (0x40004400, 0)
    ∷ (0x4000440C, 0)
    -- ADC: control, sequence, sample divider, interrupt enable
    ∷ (0x40006000, 0)
    ∷ (0x40006014, 0)
    ∷ (0x40006018, 0)
    ∷ (0x4000600C, 0)
    ∷ []

-- The registers that get a setting of devkit/sdk/hal_init.c, by the addresses of the manuals. All bits
-- of the chip select of SPI are set, which by docs/peripherals/spi.md selects all four chips.
unfoldable pub settings : Log
settings =
    -- UART0 and UART1: divider, length of a LIN break
    (0x4000100C, 500)
    ∷ (0x40001020, 13)
    ∷ (0x4000200C, 500)
    ∷ (0x40002020, 13)
    -- CAN: bit timing
    ∷ (0x40003008, 0x13)
    -- SPI: clock divider, chip select
    ∷ (0x40004008, 4)
    ∷ (0x40004014, 0xFFFFFFFF)
    -- I2C: clock divider
    ∷ (0x40004404, 64)
    ∷ []

-- The interrupt masks of UART0, UART1 and CAN, with the number of sources of each.
abbrev pub masked : Log
masked = (0x40001010, 7) ∷ (0x40002010, 7) ∷ (0x40003010, 3) ∷ []

-- The last value written to the mask cleared the bits of its sources.
abbrev Cleared : Log → ℕ × ℕ → Type 0
Cleared log (a, n) = (v : ℕ) × (last_write a log ≡ some (bit_and v (complement32 (2 ^ n - 1))))

-- What is known of the writes of a whole bootstrap.
record Booted (log : Log) : Type 0 where
  at_rest : agrees log rest_table ≡ true
  set : agrees log settings ≡ true
  masks : All (Cleared log) masked

qar_sdk_init-Ends : Ends Booted [] qar_sdk_init
unfolding qar_sdk_init init_gpio_block init_timer_block init_uart_block init_can_block
    init_spi_block init_i2c_block init_adc_block rest_table settings
qar_sdk_init-Ends = λ v w x. record {
  at_rest = refl;
  set = refl;
  masks = ((v, refl), ((w, refl), ((x, refl), tt)));
}

-- Masked interrupts: every source of the peripheral at mask register `a` is off.
abbrev pub Off : (ℕ → ℕ) → ℕ × ℕ → Type 0
Off held (a, n) = (k : ℕ) → k < n → bit_at (held a) k ≡ 0

module _ {S : Type 0} (bus : Bus S) (width : ℕ → ℕ) (dev : Device bus width) where
  open dev use {peek}

  Off-Cleared :
      (log : Log) (s : S) (rows : Log)
      → Reflects bus width dev log s
      → All (λ row. (width row.0 ≡ 32) × (row.1 ≤ 32)) rows
      → All (Cleared log) rows
      → All (Off (λ a. peek a s)) rows
  Off-Cleared log s [] r w c = tt
  Off-Cleared log s ((a, n) ∷ rows) r w c =
      let (v, last) = c.0 in
      let cleared = bit_and v (complement32 (2 ^ n - 1)) in
      let fits : cleared < 2 ^ width a =
        rw (w.0.0) (omega (arith, bit_and-le v (complement32 (2 ^ n - 1)))) in
      let held = r a cleared (omega (arith, w.0.0)) fits last in
      (λ k h. rw held (bit_at_cleared v n k w.0.1 h), Off-Cleared log s rows r w.1 c.1)

  -- On a device on which the registers of the two tables, with room for their values, and the three
  -- interrupt masks of 32 bits hold what is written to them: from every state the bootstrap ends, and
  -- then each register of `rest_table` is 0, each one of `settings` holds its setting, and no
  -- interrupt source of the UARTs and of CAN is enabled.
  pub qar_sdk_init_lem :
      (s : S)
      → Holds width rest_table
      → Holds width settings
      → All (λ row. width row.0 ≡ 32) masked
      → (after : S) × (exec bus qar_sdk_init s ≡ some (tt, after))
        × All (λ row. peek row.0 after ≡ row.1) rest_table
        × All (λ row. peek row.0 after ≡ row.1) settings
        × All (Off (λ a. peek a after)) masked
  qar_sdk_init_lem s rests sets (w0, (w1, (w2, _))) =
      let o : Outcome bus width dev Booted qar_sdk_init s =
        Ends-Outcome bus width dev Booted qar_sdk_init [] s qar_sdk_init-Ends (λ a v w f e. cc) in
      (
        o.after,
        o.runs,
        Reflects-All bus width dev o.writes rest_table o.after o.reflects
            (agrees-All o.writes rest_table o.meets.at_rest) rests,
        Reflects-All bus width dev o.writes settings o.after o.reflects
            (agrees-All o.writes settings o.meets.set) sets,
        Off-Cleared o.writes o.after masked o.reflects
            ((w0, omega arith), ((w1, omega arith), ((w2, omega arith), tt))) o.meets.masks,
      )
