-- ===== src/Sdk.antt =====
-- devkit/sdk/hal_init.c: the blocks that bring each peripheral into a known state, and the whole
-- bootstrap that devkit/sdk/runtime.c calls.
pub mod Boot
pub mod Windows
use qar_mvp.Prelude.{ℕ, Bool, true, false, bit_or}
use qar_mvp.Mmio.{Io, ret, store, ◌>>◌}
use qar_mvp.Hal.Gpio
use qar_mvp.Hal.Uart
use qar_mvp.Hal.Timer
use qar_mvp.Hal.Can
use qar_mvp.Hal.Spi
use qar_mvp.Hal.I2c
use qar_mvp.Hal.Adc

abbrev pub uart_boot_div : ℕ
uart_boot_div = 500

abbrev pub can_boot_bittime : ℕ
can_boot_bittime = 0x00000013

abbrev pub spi_boot_clkdiv : ℕ
spi_boot_clkdiv = 4

abbrev pub i2c_boot_clkdiv : ℕ
i2c_boot_clkdiv = 64

infixl 66 ◌|||◌
abbrev ◌|||◌ : ℕ → ℕ → ℕ
a ||| b = bit_or a b

abbrev pub uart_irq_all : ℕ
uart_irq_all =
    Uart.irq_flag Uart.Irq.rx_ready
    ||| Uart.irq_flag Uart.Irq.tx_empty
    ||| Uart.irq_flag Uart.Irq.error
    ||| Uart.irq_flag Uart.Irq.idle
    ||| Uart.irq_flag Uart.Irq.lin_break
    ||| Uart.irq_flag Uart.Irq.lin_header
    ||| Uart.irq_flag Uart.Irq.lin_slave

abbrev pub can_irq_all : ℕ
can_irq_all =
    Can.irq_flag Can.Irq.rx_ready ||| Can.irq_flag Can.Irq.tx_done ||| Can.irq_flag Can.Irq.rx_ovf

abbrev pub timer_status_all : ℕ
timer_status_all =
    Timer.status_flag Timer.Status.cmp0
    ||| Timer.status_flag Timer.Status.cmp1
    ||| Timer.status_flag Timer.Status.wdt
    ||| Timer.status_flag Timer.Status.capture0
    ||| Timer.status_flag Timer.Status.capture1

abbrev pub spi_irq_all : ℕ
spi_irq_all =
    Spi.irq_flag Spi.Irq.rx_ready
    ||| Spi.irq_flag Spi.Irq.tx_empty
    ||| Spi.irq_flag Spi.Irq.fault
    ||| Spi.irq_flag Spi.Irq.tx_ovf
    ||| Spi.irq_flag Spi.Irq.rx_ovf
    ||| Spi.irq_flag Spi.Irq.cs_fault

abbrev pub i2c_irq_all : ℕ
i2c_irq_all =
    I2c.irq_flag I2c.Irq.rx_ready
    ||| I2c.irq_flag I2c.Irq.tx_empty
    ||| I2c.irq_flag I2c.Irq.fault
    ||| I2c.irq_flag I2c.Irq.tx_ovf
    ||| I2c.irq_flag I2c.Irq.rx_ovf
    ||| I2c.irq_flag I2c.Irq.nack

abbrev pub adc_irq_all : ℕ
adc_irq_all = Adc.irq_flag Adc.Irq.data_ready ||| Adc.irq_flag Adc.Irq.overrun

unfoldable pub init_gpio_block : ℕ → Io (Unit {0})
unfolding Gpio.config_dir Gpio.write Gpio.config_irq Gpio.config_debounce Gpio.clear_irq
init_gpio_block base = do
  Gpio.config_dir base 0x0
  Gpio.write base 0x0
  store (Gpio.reg base Gpio.Reg.alt_pwm) 0x0
  Gpio.config_irq base 0x0 0x0 0x0
  Gpio.config_debounce base 0x0 0
  Gpio.clear_irq base 0xFFFFFFFF

unfoldable pub init_timer_block : ℕ → Io (Unit {0})
init_timer_block base = do
  store (Timer.reg base Timer.Reg.ctrl) 0x0
  store (Timer.reg base Timer.Reg.irq_en) 0x0
  store (Timer.reg base Timer.Reg.status) timer_status_all
  store (Timer.reg base Timer.Reg.prescale) 0x0
  store (Timer.reg base Timer.Reg.cmp0) 0x0
  store (Timer.reg base Timer.Reg.cmp0_period) 0x0
  store (Timer.reg base Timer.Reg.cmp1) 0x0
  store (Timer.reg base Timer.Reg.cmp1_period) 0x0
  store (Timer.reg base Timer.Reg.pwm0_period) 0x0
  store (Timer.reg base Timer.Reg.pwm0_duty) 0x0
  store (Timer.reg base Timer.Reg.pwm1_period) 0x0
  store (Timer.reg base Timer.Reg.pwm1_duty) 0x0
  store (Timer.reg base Timer.Reg.wdt_load) 0x0
  store (Timer.reg base Timer.Reg.wdt_ctrl) 0x0
  store (Timer.reg base Timer.Reg.capture_ctrl) 0x0

unfoldable pub init_uart_block : ℕ → Io (Unit {0})
unfolding Uart.disable_irq Uart.clear_irq Uart.lin_clear_break
init_uart_block base = do
  store (Uart.reg base Uart.Reg.ctrl) 0x0
  store (Uart.reg base Uart.Reg.baud) uart_boot_div
  store (Uart.reg base Uart.Reg.rs485) 0x0
  store (Uart.reg base Uart.Reg.idle_cfg) 0x0
  store (Uart.reg base Uart.Reg.lin_ctrl) 13
  store (Uart.reg base Uart.Reg.lin_slave) 0x0
  Uart.disable_irq base uart_irq_all
  Uart.clear_irq base uart_irq_all
  Uart.lin_clear_break base

unfoldable pub init_can_block : ℕ → Io (Unit {0})
unfolding Can.disable_irq Can.clear_irq Can.flush_rx
init_can_block base = do
  store (Can.reg base Can.Reg.ctrl) 0x0
  store (Can.reg base Can.Reg.bittime) can_boot_bittime
  store (Can.reg base Can.Reg.filter_id) 0x0
  store (Can.reg base Can.Reg.filter_mask) 0x0
  Can.disable_irq base can_irq_all
  Can.clear_irq base can_irq_all
  Can.flush_rx base

unfoldable pub init_spi_block : ℕ → Io (Unit {0})
init_spi_block base = do
  store (Spi.reg base Spi.Reg.ctrl) 0x0
  store (Spi.reg base Spi.Reg.clkdiv) spi_boot_clkdiv
  store (Spi.reg base Spi.Reg.cs) 0xFFFFFFFF
  store (Spi.reg base Spi.Reg.irq_en) 0x0
  store (Spi.reg base Spi.Reg.irq_status) spi_irq_all

unfoldable pub init_i2c_block : ℕ → Io (Unit {0})
init_i2c_block base = do
  store (I2c.reg base I2c.Reg.ctrl) 0x0
  store (I2c.reg base I2c.Reg.clkdiv) i2c_boot_clkdiv
  store (I2c.reg base I2c.Reg.irq_en) 0x0
  store (I2c.reg base I2c.Reg.irq_status) i2c_irq_all

unfoldable pub init_adc_block : ℕ → Io (Unit {0})
init_adc_block base = do
  store (Adc.reg base Adc.Reg.ctrl) 0x0
  store (Adc.reg base Adc.Reg.seq_mask) 0x0
  store (Adc.reg base Adc.Reg.sample_div) 0x0
  store (Adc.reg base Adc.Reg.irq_en) 0x0
  store (Adc.reg base Adc.Reg.irq_status) adc_irq_all

unfoldable pub qar_sdk_init : Io (Unit {0})
qar_sdk_init = do
  init_gpio_block Gpio.gpio0_base
  init_timer_block Timer.timer0_base
  init_uart_block Uart.uart0_base
  init_uart_block Uart.uart1_base
  init_can_block Can.can0_base
  init_spi_block Spi.spi0_base
  init_i2c_block I2c.i2c0_base
  init_adc_block Adc.adc0_base

-- The constructor of devkit/sdk/runtime.c; the flag says whether the weak `qar_sdk_init` is linked,
-- and `init` is the definition that the linker chose.
unfoldable pub qar_call_init : Bool → Io (Unit {0}) → Io (Unit {0})
qar_call_init true init = init
qar_call_init false init = ret tt
