-- ===== src/Examples/Rs485/Counts.antt =====
-- The interrupts of devkit/examples/c/uart_rs485_isr.c, in any interleaving with what else happens.
use qar_mvp.Prelude.{
  ℕ, ◌+◌, ◌%◌, ◌^◌, ◌<◌, ◌≡◌, sym, ap, Option, none, ◌∙◌, some, bit_at, bit_at-bit_or,
  bit_at-le_one, arith, inl, inr,
}
use qar_mvp.Mmio.{Io, Bus, exec, exec->>=, ◌>>◌}
use qar_mvp.Mmio.Device.{Device}
use qar_mvp.Mmio.Masks.{set_bits-Updated}
use qar_mvp.Hal.Uart
use qar_mvp.Examples.Rs485.{uart_base, isr_set_up, isr_main, uart_isr}
use qar_mvp.Examples.Rs485.Laws.{uart_isr_lem}

abbrev pub status : ℕ
status = Uart.reg uart_base Uart.Reg.status

module _ {S : Type 0} (bus : Bus S) where
  -- From one value of `idle_count` and one state of the hardware to others: the rest of the system
  -- moves the hardware in any way, or the interrupt handler runs. The last index counts the runs
  -- that read the idle flag set.
  pub data Served : ℕ → S → ℕ → S → ℕ → Type 0 where
    start : {c : ℕ} {s : S} → Served c s c s 0
    moved : {c d events : ℕ} {s t : S} (u : S) → Served c s d t events → Served c s d u events
    handled :
        {c d d' events : ℕ} {s t u : S}
        → Served c s d t events
        → exec bus (uart_isr d) t ≡ some (d', u)
        → Served c s d' u (events + bit_at (bus.get status t).0 6)

  result : Option (ℕ × S) → ℕ
  result none = 0
  result (some r) = r.0

  isr-counts :
      (d d' : ℕ) (t u : S)
      → d < 2 ^ 32
      → exec bus (uart_isr d) t ≡ some (d', u)
      → d' ≡ (d + bit_at (bus.get status t).0 6) % 2 ^ 32
  unfolding result
  isr-counts d d' t u small runs = elim (uart_isr_lem bus d t) [
    | inl (clear, same) ↦ omega (arith, clear, small, ap result (sym runs ∙ same))
    | inr (up, more) ↦ omega (arith, up, ap result (sym runs ∙ more))
  ]

  -- In any interleaving, the count has grown by the number of handler runs that read the idle flag set,
  -- modulo 2 ^ 32.
  pub Served-counts :
      {c d events : ℕ} {s t : S} → Served c s d t events → c < 2 ^ 32 → d ≡ (c + events) % 2 ^ 32
  Served-counts start small = omega arith
  Served-counts (moved u r) small = Served-counts r small
  Served-counts (handled {d} {d'} {t} {u} r runs) small =
      let before = Served-counts r small in
      omega (arith, before, isr-counts d d' t u (omega (arith, before)) runs)

module _ {S : Type 0} (bus : Bus S) (width : ℕ → ℕ) (dev : Device bus width) where
  open dev use {peek, peek-put_ne, peek-put_self}

  -- The UART is enabled at its rate, the line counts as idle after 1000 cycles, and the idle event
  -- interrupts.
  pub record Armed (s : S) : Type 0 where
    pub enabled : peek (Uart.reg uart_base Uart.Reg.ctrl) s ≡ 1
    pub rate : peek (Uart.reg uart_base Uart.Reg.baud) s ≡ 500
    pub idle : peek (Uart.reg uart_base Uart.Reg.idle_cfg) s ≡ 1000
    pub interrupts : bit_at (peek (Uart.reg uart_base Uart.Reg.irq_en) s) 3 ≡ 1

  -- The registers of the UART that the example configures have 32 bits.
  pub record Wide : Type 0 where
    pub ctrl : width (Uart.reg uart_base Uart.Reg.ctrl) ≡ 32
    pub rate : width (Uart.reg uart_base Uart.Reg.baud) ≡ 32
    pub idle : width (Uart.reg uart_base Uart.Reg.idle_cfg) ≡ 32
    pub irq_en : width (Uart.reg uart_base Uart.Reg.irq_en) ≡ 32

  isr_set_up-Armed : (s : S) → Wide → (t : S) × (exec bus isr_set_up s ≡ some (tt, t)) × Armed t
  unfolding isr_set_up Uart.init Uart.set_idle_cycles Uart.enable_irq
  isr_set_up-Armed s w =
      let (t, runs, u) =
        set_bits-Updated bus width dev (Uart.reg uart_base Uart.Reg.irq_en) 8 _ w.irq_en
          (omega arith) in
      (
        t,
        runs,
        record {
          enabled =
              u.others _ (omega (arith, w.ctrl)) (omega arith)
              ∙ peek-put_ne _ _ _ _ (omega (arith, w.ctrl)) (omega arith)
              ∙ peek-put_ne _ _ _ _ (omega (arith, w.ctrl)) (omega arith)
              ∙ peek-put_ne _ _ _ _ (omega (arith, w.ctrl)) (omega arith)
              ∙ peek-put_ne _ _ _ _ (omega (arith, w.ctrl)) (omega arith)
              ∙ peek-put_self _ _ _ (omega (arith, w.ctrl)) (rw w.ctrl (omega arith));
          rate =
              u.others _ (omega (arith, w.rate)) (omega arith)
              ∙ peek-put_ne _ _ _ _ (omega (arith, w.rate)) (omega arith)
              ∙ peek-put_ne _ _ _ _ (omega (arith, w.rate)) (omega arith)
              ∙ peek-put_ne _ _ _ _ (omega (arith, w.rate)) (omega arith)
              ∙ peek-put_ne _ _ _ _ (omega (arith, w.rate)) (omega arith)
              ∙ peek-put_ne _ _ _ _ (omega (arith, w.rate)) (omega arith)
              ∙ peek-put_self _ _ _ (omega (arith, w.rate)) (rw w.rate (omega arith));
          idle =
              u.others _ (omega (arith, w.idle)) (omega arith)
              ∙ peek-put_self _ _ _ (omega (arith, w.idle)) (rw w.idle (omega arith));
          interrupts =
              ap (λ v. bit_at v 3) u.held ∙ bit_at-bit_or _ 8 3 ∙ omega (arith, bit_at-le_one _ 3);
        },
      )

  -- On a device whose four registers have 32 bits: when the example begins to send, with whatever
  -- `send_byte` is, the UART is enabled and the idle event interrupts.
  pub isr_main-Armed :
      (send : ℕ → ℕ → Io (Unit {0})) (s : S)
      → Wide
      → (t : S) × Armed t
        × (exec bus (isr_main send) s ≡ exec bus (send uart_base 0x33 >> send uart_base 0x55) t)
  unfolding isr_main
  isr_main-Armed send s w =
      let (t, runs, armed) = isr_set_up-Armed s w in
      (t, armed, exec->>= bus isr_set_up (λ u. send uart_base 0x33 >> send uart_base 0x55) s runs)
