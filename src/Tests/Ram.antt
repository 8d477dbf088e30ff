-- ===== src/Tests/Ram.antt =====
-- A memory-mapped device: every address holds 32 bits, but for the status register of the CAN
-- interrupts, which reads as zero.
use qar_mvp.Prelude.{ℕ, ◌%◌, ◌^◌, refl, arith, ◌==◌, if◌then◌else◌, ◌+◌}
use qar_mvp.Mmio.{Bus}
use qar_mvp.Mmio.Device.{Device}

abbrev pub ram_width : ℕ → ℕ
ram_width a = if a == 0x40003014 then 0 else 32

abbrev pub Ram : Type 0
Ram = ℕ → ℕ

abbrev pub ram_peek : ℕ → Ram → ℕ
ram_peek a s = if a == 0x40003014 then 0 else s a % 2 ^ 32

abbrev pub ram_put : ℕ → ℕ → Ram → Ram
ram_put a v s = λ b. if b == a then v else s b

abbrev pub ram_bus : Bus Ram
ram_bus = record { get = λ a s. (ram_peek a s, s); put = ram_put }

pub ram : Device ram_bus ram_width
ram = record {
  peek = ram_peek;
  peek-put_self = λ a v s wide fits. ground arith;
  peek-put_ne = λ a b v s wide ne. ground arith;
  peek-lt = λ a s. ground arith;
  get_value = λ a s wide. refl;
  peek-get = λ a b s wide. refl;
}

-- What the memory holds at first.
abbrev pub noise : Ram
noise a = a + 7
