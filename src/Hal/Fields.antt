-- ===== src/Hal/Fields.antt =====
-- The words that the headers pack and take apart.
use qar_mvp.Prelude.{
  ℕ, zero, suc, ◌+◌, ◌*◌, ◌/◌, ◌%◌, ◌^◌, ◌<◌, ℤ, pos, negsuc, bit_and, bit_or, bit_and_mask,
  bit_or_low, bit_or-zero, bit_or_disjoint, bit_or_comm, ◌≡◌, ap, ◌∙◌, some, arith, IsByte, IsU32,
}
use qar_mvp.Mmio.{Bus, exec}
use qar_mvp.Hal.Uart
use qar_mvp.Hal.Adc

-- 1 for a true `int`, 0 for a false one.
abbrev pub truth : ℤ → ℕ
truth (pos zero) = 0
truth (pos (suc n)) = 1
truth (negsuc n) = 1

-- The word of `qar_uart_lin_config_slave` is laid out as docs/peripherals/uart.md says of
-- LIN_SLAVE: the length in bits 0-7, the identifier in bits 8-15, the enable flag in bit 16,
-- and nothing above.
pub slave_word_fields :
    (match_id length : ℕ) (enable : ℤ)
    → IsByte match_id
    → IsByte length
    → Uart.slave_word match_id length enable ≡ truth enable * 65536 + match_id * 256 + length
unfolding Uart.slave_word
slave_word_fields match_id length enable hm hl = by_flag enable
  where
    low : bit_and length 0xFF ≡ length
    low = omega (arith, bit_and_mask 8 length)

    value : bit_or (match_id * 256) (bit_and length 0xFF) ≡ match_id * 256 + length
    value = rw low (bit_or_comm (match_id * 256) length ∙ bit_or_disjoint 8 match_id length hl)

    flagged :
        bit_or (bit_or (match_id * 256) (bit_and length 0xFF)) 65536
        ≡ 65536 + match_id * 256 + length
    flagged = rw value (bit_or_disjoint 16 1 (match_id * 256 + length) (omega arith) ∙ omega arith)

    by_flag :
        (e : ℤ) → Uart.slave_word match_id length e ≡ truth e * 65536 + match_id * 256 + length
    by_flag (pos zero) = value ∙ omega arith
    by_flag (pos (suc n)) = flagged ∙ omega arith
    by_flag (negsuc n) = flagged ∙ omega arith

-- Setting a clear bit 2 adds 4.
four_low : (n : ℕ) → n / 4 % 2 ≡ 0 → bit_or n 4 ≡ n + 4
four_low n h = omega (
  arith,
  bit_or_low n 4,
  bit_or_low (n / 2) 2,
  bit_or_low (n / 2 / 2) 1,
  bit_or-zero (n / 2 / 2 / 2),
)

pub single_word_lem : (wanted : ℕ) → IsU32 wanted → Adc.single_word wanted ≡ 1 + 4 + wanted % 4 * 16
unfolding Adc.single_word
single_word_lem wanted hw =
    rw with_enable (omega (arith, four_low (wanted % 4 * 16 + 1) (omega arith)))
  where
    chosen : (bit_and wanted 0x3 * 2 ^ 4) % 2 ^ 32 ≡ wanted % 4 * 2 ^ 4
    chosen = omega (arith, bit_and_mask 2 wanted)

    with_enable : bit_or 1 ((bit_and wanted 0x3 * 2 ^ 4) % 2 ^ 32) ≡ wanted % 4 * 2 ^ 4 + 1
    with_enable = rw chosen (bit_or_disjoint 4 (wanted % 4) 1 (omega arith))

-- The result word of the converter: 12 bits of value, a channel in bits 16 to 19, and anything in
-- the other bits.
abbrev pub result_word : ℕ → ℕ → ℕ → ℕ → ℕ
result_word upper channel gap value = upper * 1048576 + channel * 65536 + gap * 4096 + value

-- On any hardware, `qar_adc_start_single` makes one write, to the control register: the enable and the
-- start bit and the channel modulo 4 in bits 4 and 5, and no other bit; and the two macros find the
-- 12-bit value and the 4-bit channel in a result word, whatever its other bits are.
pub adc_fields :
    {S : Type 0} (bus : Bus S) (s : S) (base wanted upper channel gap value : ℕ)
    → IsU32 wanted
    → channel < 16
    → gap < 16
    → value < 4096
    → (exec bus (Adc.start_single base wanted) s
        ≡ some (tt, bus.put (Adc.reg base Adc.Reg.ctrl) (1 + 4 + wanted % 4 * 16) s))
      × (Adc.result_value (result_word upper channel gap value) ≡ value)
      × (Adc.result_channel (result_word upper channel gap value) ≡ channel)
unfolding Adc.result_value Adc.result_channel Adc.start_single
adc_fields bus s base wanted upper channel gap value hw hc hg hv = (
  ap (λ v. some (tt, bus.put (Adc.reg base Adc.Reg.ctrl) v s)) (single_word_lem wanted hw),
  bit_and_mask 12 (result_word upper channel gap value) ∙ omega arith,
  bit_and_mask 4 (result_word upper channel gap value / 2 ^ 16) ∙ omega arith,
)
