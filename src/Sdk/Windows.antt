-- ===== src/Sdk/Windows.antt =====
-- Where devkit/sdk/hal_init.c reaches: each block stays among the registers of its own peripheral.
use qar_mvp.Prelude.{ℕ, bit_and-le, ◌≡◌, arith}
use qar_mvp.Mmio.{Io, Accesses, ◌>>◌}
use qar_mvp.Mmio.Device.{Accesses->>=, Accesses-mono}
use qar_mvp.Hal.Windows.Defs.{InWindow, IsBase}
use qar_mvp.Hal.Gpio
use qar_mvp.Hal.Uart
use qar_mvp.Hal.Timer
use qar_mvp.Hal.Can
use qar_mvp.Hal.Spi
use qar_mvp.Hal.I2c
use qar_mvp.Hal.Adc
use qar_mvp.Sdk.{
  init_gpio_block, init_timer_block, init_uart_block, init_can_block, init_spi_block,
  init_i2c_block, init_adc_block, qar_sdk_init,
}

init_gpio_block-window :
    (base : ℕ) → IsBase base 0x30 → Accesses (InWindow base 0x30) (init_gpio_block base)
unfolding init_gpio_block
init_gpio_block-window base h = omega arith

init_timer_block-window :
    (base : ℕ) → IsBase base 0x50 → Accesses (InWindow base 0x50) (init_timer_block base)
unfolding init_timer_block
init_timer_block-window base h = omega arith

init_uart_block-window :
    (base : ℕ) → IsBase base 0x34 → Accesses (InWindow base 0x34) (init_uart_block base)
unfolding init_uart_block
init_uart_block-window base h = omega (arith, bit_and-le)

init_can_block-window :
    (base : ℕ) → IsBase base 0x48 → Accesses (InWindow base 0x48) (init_can_block base)
unfolding init_can_block
init_can_block-window base h = omega (arith, bit_and-le)

init_spi_block-window :
    (base : ℕ) → IsBase base 0x24 → Accesses (InWindow base 0x24) (init_spi_block base)
unfolding init_spi_block
init_spi_block-window base h = omega arith

init_i2c_block-window :
    (base : ℕ) → IsBase base 0x24 → Accesses (InWindow base 0x24) (init_i2c_block base)
unfolding init_i2c_block
init_i2c_block-window base h = omega arith

init_adc_block-window :
    (base : ℕ) → IsBase base 0x1C → Accesses (InWindow base 0x1C) (init_adc_block base)
unfolding init_adc_block
init_adc_block-window base h = omega arith

pub data Kind : Type 0 where
  gpio timer uart can spi i2c adc : Kind

abbrev pub init_block : Kind → ℕ → Io (Unit {0})
init_block gpio = init_gpio_block
init_block timer = init_timer_block
init_block uart = init_uart_block
init_block can = init_can_block
init_block spi = init_spi_block
init_block i2c = init_i2c_block
init_block adc = init_adc_block

-- The bytes that the registers of a peripheral take, by the manuals in docs/peripherals.
abbrev pub window_size : Kind → ℕ
window_size gpio = 0x30
window_size timer = 0x50
window_size uart = 0x34
window_size can = 0x48
window_size spi = 0x24
window_size i2c = 0x24
window_size adc = 0x1C

-- At any base that leaves room for the registers, the block of a peripheral accesses only aligned
-- words of that peripheral's window and writes only 32-bit values, whatever the hardware answers.
pub init_block-InWindow :
    (k : Kind) (base : ℕ)
    → IsBase base (window_size k)
    → Accesses (InWindow base (window_size k)) (init_block k base)
init_block-InWindow gpio = init_gpio_block-window
init_block-InWindow timer = init_timer_block-window
init_block-InWindow uart = init_uart_block-window
init_block-InWindow can = init_can_block-window
init_block-InWindow spi = init_spi_block-window
init_block-InWindow i2c = init_i2c_block-window
init_block-InWindow adc = init_adc_block-window

-- The peripherals of the system, and where the memory map puts them.
pub data Instance : Type 0 where
  gpio0 uart0 uart1 can0 spi0 i2c0 timer0 adc0 : Instance

abbrev pub kind : Instance → Kind
kind gpio0 = gpio
kind uart0 = uart
kind uart1 = uart
kind can0 = can
kind spi0 = spi
kind i2c0 = i2c
kind timer0 = timer
kind adc0 = adc

abbrev pub base_of : Instance → ℕ
base_of gpio0 = Gpio.gpio0_base
base_of uart0 = Uart.uart0_base
base_of uart1 = Uart.uart1_base
base_of can0 = Can.can0_base
base_of spi0 = Spi.spi0_base
base_of i2c0 = I2c.i2c0_base
base_of timer0 = Timer.timer0_base
base_of adc0 = Adc.adc0_base

abbrev pub RegistersOf : Instance → ℕ → Type 0
RegistersOf i = InWindow (base_of i) (window_size (kind i))

abbrev pub Mapped : ℕ → Type 0
Mapped a = (i : Instance) × RegistersOf i a

block_of-Mapped :
    (i : Instance)
    → IsBase (base_of i) (window_size (kind i))
    → Accesses Mapped (init_block (kind i) (base_of i))
block_of-Mapped i h =
    Accesses-mono (RegistersOf i) Mapped (init_block (kind i) (base_of i)) (λ a w. (i, w))
      (init_block-InWindow (kind i) (base_of i) h)

-- A block, and what follows it.
and_then :
    (i : Instance) (rest : Io (Unit {0}))
    → IsBase (base_of i) (window_size (kind i))
    → Accesses Mapped rest
    → Accesses Mapped (init_block (kind i) (base_of i) >> rest)
and_then i rest h r =
    Accesses->>= Mapped (init_block (kind i) (base_of i)) (λ _. rest) (block_of-Mapped i h) (λ _. r)

-- The bootstrap reaches nothing but registers of the eight peripherals.
pub qar_sdk_init-Mapped : Accesses Mapped qar_sdk_init
unfolding qar_sdk_init
qar_sdk_init-Mapped = and_then gpio0 _ (omega arith) (
    and_then timer0 _ (omega arith) (
      and_then uart0 _ (omega arith) (
        and_then uart1 _ (omega arith) (
          and_then can0 _ (omega arith) (
            and_then spi0 _ (omega arith)
              (and_then i2c0 _ (omega arith) (block_of-Mapped adc0 (omega arith))))))))

-- No address belongs to two peripherals.
pub RegistersOf-unique : (i j : Instance) (a : ℕ) → RegistersOf i a → RegistersOf j a → i ≡ j
RegistersOf-unique i j a h k = ground arith
