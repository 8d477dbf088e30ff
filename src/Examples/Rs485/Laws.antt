-- ===== src/Examples/Rs485/Laws.antt =====
-- The interrupt handler of devkit/examples/c/uart_rs485_isr.c.
use qar_mvp.Prelude.{
  ℕ, ◌+◌, ◌%◌, ◌^◌, ◌≡◌, refl, Bool, some, bit_at, bit_and_flag, bit_at-le_one, arith, ◌⊎◌, inl,
  inr,
}
use qar_mvp.Mmio.{Bus, exec}
use qar_mvp.Hal.Uart
use qar_mvp.Examples.Rs485.{uart_base, is_idle, uart_isr}

is_idle_lem :
    (v : ℕ)
    → ((bit_at v 6 ≡ 0) × (is_idle v ≡ Bool.false)) ⊎ ((bit_at v 6 ≡ 1) × (is_idle v ≡ Bool.true))
is_idle_lem v = ground (arith, bit_and_flag 6 v, bit_at-le_one v 6)

-- On every hardware the handler reads the status once. If the idle flag, bit 6, is set, the idle
-- event, bit 3 of the interrupt status, is cleared and the count grows by one, modulo 2 ^ 32;
-- otherwise nothing is written and the count stays.
pub uart_isr_lem :
    {S : Type 0} (bus : Bus S) (idle_count : ℕ) (s : S)
    → let (v, t) = bus.get (Uart.reg uart_base Uart.Reg.status) s in
      ((bit_at v 6 ≡ 0) × (exec bus (uart_isr idle_count) s ≡ some (idle_count, t)))
      ⊎ ((bit_at v 6 ≡ 1)
          × (exec bus (uart_isr idle_count) s
              ≡ some (
                (idle_count + 1) % 2 ^ 32,
                bus.put (Uart.reg uart_base Uart.Reg.irq_status) 8 t,
              )))
unfolding uart_isr Uart.status_word Uart.clear_irq
uart_isr_lem bus idle_count s =
    elim (is_idle_lem (bus.get (Uart.reg uart_base Uart.Reg.status) s).0) [
      | inl (clear, test) ↦ inl (clear, rw (test, exec) refl)
      | inr (up, test) ↦ inr (up, rw (test, exec) refl)
    ]
