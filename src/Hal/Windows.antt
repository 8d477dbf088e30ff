-- ===== src/Hal/Windows.antt =====
-- Every function of devkit/hal stays among the registers of its peripheral: its calls as data, and
-- a theorem for each header.
pub mod Defs
pub mod Gpio
pub mod Uart
pub mod Timer
pub mod Can
pub mod Spi
pub mod I2c
pub mod Adc
use qar_mvp.Prelude.{ℕ}
use qar_mvp.Mmio.{Io}
use qar_mvp.Hal.Windows.Defs.{IsBase, Stays}

-- A call of a function of one of the headers.
pub data Call : Type 0 where
  gpio : Gpio.Call → Call
  uart : Uart.Call → Call
  timer : Timer.Call → Call
  can : Can.Call → Call
  spi : Spi.Call → Call
  i2c : I2c.Call → Call
  adc : Adc.Call → Call

-- The bytes of the peripheral's register window.
abbrev pub window : Call → ℕ
window (gpio c) = 0x30
window (uart c) = 0x34
window (timer c) = 0x50
window (can c) = 0x48
window (spi c) = 0x24
window (i2c c) = 0x24
window (adc c) = 0x1C

abbrev pub run : ℕ → Call → Io (Unit {0})
run base (gpio c) = Gpio.run base c
run base (uart c) = Uart.run base c
run base (timer c) = Timer.run base c
run base (can c) = Can.run base c
run base (spi c) = Spi.run base c
run base (i2c c) = I2c.run base c
run base (adc c) = Adc.run base c

abbrev pub Fits : Call → Type 0
Fits (gpio c) = Gpio.Fits c
Fits (uart c) = Uart.Fits c
Fits (timer c) = Timer.Fits c
Fits (can c) = Can.Fits c
Fits (spi c) = Spi.Fits c
Fits (i2c c) = I2c.Fits c
Fits (adc c) = Adc.Fits c

-- At an aligned base with room for the registers, and on arguments of their widths: every function of
-- the seven headers of devkit/hal accesses only words of the peripheral's window and writes only
-- 32-bit values, whatever the hardware answers.
pub run-Stays :
    (base : ℕ) (c : Call) → IsBase base (window c) → Fits c → Stays base (window c) (run base c)
run-Stays base (gpio c) h f = Gpio.gpio_run-Stays base c h f
run-Stays base (uart c) h f = Uart.uart_run-Stays base c h f
run-Stays base (timer c) h f = Timer.timer_run-Stays base c h f
run-Stays base (can c) h f = Can.can_run-Stays base c h f
run-Stays base (spi c) h f = Spi.spi_run-Stays base c h f
run-Stays base (i2c c) h f = I2c.i2c_run-Stays base c h f
run-Stays base (adc c) h f = Adc.adc_run-Stays base c h f
