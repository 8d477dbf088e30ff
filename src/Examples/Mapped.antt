-- ===== src/Examples/Mapped.antt =====
-- The programs of devkit/examples, and the registers of the peripherals that they are about.
pub mod Parts
pub mod Serial
pub mod Timed
use qar_mvp.Prelude.{ℕ, IsU32}
use qar_mvp.Mmio.{Accesses, ◌>>◌}
use qar_mvp.Examples.Mapped.Serial.{
  InCan, InSpi, InI2c, InUart, can_loopback-Accesses, spi_loopback-Accesses, i2c_loopback-Accesses,
  lin_auto_header-Accesses, uart_rs485-Accesses, uart_isr-Accesses,
}
use qar_mvp.Examples.Mapped.Timed.{
  InTimer, InGpioOrTimer, timer_example-Accesses, pwm_demo-Accesses, gpio_demo-Accesses,
}
use qar_mvp.Examples.CanLoopback
use qar_mvp.Examples.GpioIrq
use qar_mvp.Examples.I2cLoopback
use qar_mvp.Examples.LinHeader
use qar_mvp.Examples.SpiLoopback
use qar_mvp.Examples.TimerPwm
use qar_mvp.Examples.TimerHal
use qar_mvp.Examples.Rs485

-- Whatever the hardware answers, and however long they poll: the examples access only words of the
-- peripherals that they are about, and write only values of 32 bits. The demos of the pins and of the
-- PWM are taken with any number of rounds of their loops.
pub examples-Accesses :
    (budget n fuel pwm_flags idle_count : ℕ)
    → Accesses InCan (CanLoopback.main budget)
      × Accesses InSpi (SpiLoopback.main budget)
      × Accesses InI2c (I2cLoopback.main budget)
      × Accesses InUart (LinHeader.main budget)
      × Accesses InUart (Rs485.main budget)
      × Accesses InUart (Rs485.uart_isr idle_count)
      × Accesses InTimer (TimerHal.timer_example budget pwm_flags)
      × Accesses InGpioOrTimer (TimerPwm.main fuel n)
      × Accesses InGpioOrTimer (GpioIrq.main budget n)
examples-Accesses budget n fuel pwm_flags idle_count = (
  can_loopback-Accesses budget,
  spi_loopback-Accesses budget,
  i2c_loopback-Accesses budget,
  lin_auto_header-Accesses budget,
  uart_rs485-Accesses budget,
  uart_isr-Accesses idle_count,
  timer_example-Accesses budget pwm_flags,
  pwm_demo-Accesses fuel n,
  gpio_demo-Accesses budget n,
)
