-- ===== src/Examples/Mapped/Serial.antt =====
-- The examples of CAN, SPI, I2C and the UART.
use qar_mvp.Prelude.{
  ℕ, ◌+◌, Bool, true, false, arith, IsU32, IsByte, bit_and, if◌then◌else◌, u32, u8,
}
use qar_mvp.Mmio.{ret, load, store, wait_for, Accesses, poll_until, ◌>>=◌, ◌>>◌}
use qar_mvp.Mmio.Device.{Accesses->>=}
use qar_mvp.Hal.Windows.Defs.{InWindow, bit_or-IsU32}
use qar_mvp.Examples.Mapped.Parts.{poll_then, wait_then, then_part}
use qar_mvp.Hal.Windows.Uart
use qar_mvp.Hal.Can
use qar_mvp.Hal.I2c
use qar_mvp.Hal.Spi
use qar_mvp.Hal.Uart as UartDriver
use qar_mvp.Examples.CanLoopback
use qar_mvp.Examples.I2cLoopback
use qar_mvp.Examples.LinHeader
use qar_mvp.Examples.SpiLoopback
use qar_mvp.Examples.Rs485

abbrev pub InCan : ℕ → Type 0
InCan = InWindow 0x40003000 0x48

pub can_loopback-Accesses : (budget : ℕ) → Accesses InCan (CanLoopback.main budget)
unfolding CanLoopback.main CanLoopback.set_up CanLoopback.go_quiet CanLoopback.drain_rx
    CanLoopback.send_frame Can.init Can.enable_irq Can.send_word Can.read_payload Can.pop_rx
    Can.set_ctrl
can_loopback-Accesses budget =
    let rx_fifo = Can.reg CanLoopback.can_base Can.Reg.rx_fifo in
    Accesses->>= InCan CanLoopback.set_up
      (λ x. poll_until CanLoopback.two_pending budget rx_fifo >>= λ n. CanLoopback.go_quiet)
      (omega (arith, bit_or-IsU32))
      (λ x.
        poll_then InCan CanLoopback.two_pending budget rx_fifo (λ n. CanLoopback.go_quiet)
          (omega arith) (λ n. omega arith))

abbrev pub InSpi : ℕ → Type 0
InSpi = InWindow 0x40004000 0x24

spi_exchange-Accesses :
    (budget value : ℕ) → IsU32 value → Accesses InSpi (SpiLoopback.spi_exchange budget value)
unfolding SpiLoopback.spi_exchange Spi.write
spi_exchange-Accesses budget value fits =
    let base = SpiLoopback.spi_base in
    Accesses->>= InSpi (Spi.write budget base value)
      (λ x.
        wait_for budget (Spi.reg base Spi.Reg.status) (Spi.status_flag Spi.Status.rx_valid)
        >> (load (Spi.reg base Spi.Reg.rxdata) >>= λ v. ret (u8 (bit_and v 0xFF))))
      (wait_then InSpi budget (Spi.reg base Spi.Reg.status) (Spi.status_flag Spi.Status.tx_ready)
        (store (Spi.reg base Spi.Reg.txdata) value) (omega arith) (omega arith))
      (λ x.
        wait_then InSpi budget (Spi.reg base Spi.Reg.status) (Spi.status_flag Spi.Status.rx_valid)
          (load (Spi.reg base Spi.Reg.rxdata) >>= λ v. ret (u8 (bit_and v 0xFF))) (omega arith)
          (omega arith))

exchanges-Accesses :
    (budget : ℕ)
    → Accesses {A = ℕ × ℕ} InSpi (
        SpiLoopback.spi_exchange budget 0xA5 >>= λ rx0.
        SpiLoopback.spi_exchange budget 0x3C >>= λ rx1. ret (rx0, rx1))
exchanges-Accesses budget =
    Accesses->>= InSpi (SpiLoopback.spi_exchange budget 0xA5)
      (λ rx0. SpiLoopback.spi_exchange budget 0x3C >>= λ rx1. ret (rx0, rx1))
      (spi_exchange-Accesses budget 0xA5 (omega arith))
      (λ rx0.
        Accesses->>= InSpi (SpiLoopback.spi_exchange budget 0x3C) (λ rx1. ret (rx0, rx1))
          (spi_exchange-Accesses budget 0x3C (omega arith)) (λ rx1. tt))

pub spi_loopback-Accesses : (budget : ℕ) → Accesses InSpi (SpiLoopback.main budget)
unfolding SpiLoopback.main Spi.init Spi.set_cs
spi_loopback-Accesses budget = (
  omega arith,
  omega arith,
  (omega arith, omega arith, (omega arith, omega arith, exchanges-Accesses budget)),
)

abbrev pub InI2c : ℕ → Type 0
InI2c = InWindow 0x40004400 0x24

command-Accesses : (budget cmd : ℕ) → IsU32 cmd → Accesses InI2c (I2cLoopback.command budget cmd)
unfolding I2cLoopback.command I2cLoopback.wait_cmd_clear I2c.issue_cmd
command-Accesses budget cmd fits = (
  omega arith,
  fits,
  poll_then InI2c (I2cLoopback.is_clear cmd) budget (I2c.reg I2cLoopback.i2c_base I2c.Reg.cmd)
      (λ n. ret tt) (omega arith) (λ n. tt),
)

wait_idle-Accesses : (budget : ℕ) → Accesses InI2c (I2cLoopback.wait_idle budget)
unfolding I2cLoopback.wait_idle
wait_idle-Accesses budget = poll_then InI2c _ budget _ _ (omega arith) (λ n. tt)

pub i2c_loopback-Accesses : (budget : ℕ) → Accesses InI2c (I2cLoopback.main budget)
unfolding I2cLoopback.main I2c.init I2c.stage_tx
i2c_loopback-Accesses budget =
    let status = load (I2c.reg I2cLoopback.i2c_base I2c.Reg.status) in
    let idle = I2cLoopback.wait_idle budget >> status in
    let stop = I2cLoopback.command budget 2 >> idle in
    let second = I2cLoopback.command budget 4 >> stop in
    let first = I2cLoopback.command budget 4 >> second in
    let commands : Accesses InI2c (I2cLoopback.command budget 1 >> first) =
      then_part InI2c (I2cLoopback.command budget 1) first (command-Accesses budget 1 (omega arith))
        (then_part InI2c (I2cLoopback.command budget 4) second
          (command-Accesses budget 4 (omega arith))
          (then_part InI2c (I2cLoopback.command budget 4) stop
            (command-Accesses budget 4 (omega arith))
            (then_part InI2c (I2cLoopback.command budget 2) idle
              (command-Accesses budget 2 (omega arith))
              (then_part InI2c (I2cLoopback.wait_idle budget) status (wait_idle-Accesses budget)
                (omega arith))))) in
    (
      omega arith,
      omega arith,
      (
        omega arith,
        omega arith,
        (
          omega arith,
          omega arith,
          (omega arith, omega arith, (omega arith, omega arith, commands)),
        ),
      ),
    )

abbrev pub InUart : ℕ → Type 0
InUart = InWindow 0x40001000 0x34

write-Accesses : (budget b : ℕ) → IsByte b → Accesses InUart (UartDriver.write budget 0x40001000 b)
write-Accesses budget b = Uart.uart_run-Stays 0x40001000 (Uart.write budget b) (omega arith)

lin_set_up-Accesses : Accesses InUart LinHeader.set_up
unfolding LinHeader.set_up UartDriver.init UartDriver.lin_set_break UartDriver.lin_set_tx_id
    UartDriver.lin_config_slave UartDriver.slave_word UartDriver.lin_arm_slave
lin_set_up-Accesses = omega arith

lin_payload-Accesses : (budget : ℕ) → Accesses InUart (LinHeader.lin_send_payload budget 0x55 0xAA)
unfolding LinHeader.lin_send_payload
lin_payload-Accesses budget =
    then_part InUart (UartDriver.write budget 0x40001000 0x55) _
      (write-Accesses budget 0x55 (omega arith)) (write-Accesses budget 0xAA (omega arith))

lin_start-Accesses : Accesses InUart LinHeader.start_header
unfolding LinHeader.start_header UartDriver.lin_request_break UartDriver.lin_start_auto_header
lin_start-Accesses = omega arith

pub lin_auto_header-Accesses : (budget : ℕ) → Accesses InUart (LinHeader.main budget)
unfolding LinHeader.main UartDriver.clear_irq UartDriver.lin_header_word
lin_auto_header-Accesses budget = then_part InUart LinHeader.set_up _ lin_set_up-Accesses (
    then_part InUart (LinHeader.lin_send_payload budget 0x55 0xAA) _ (lin_payload-Accesses budget) (
      then_part InUart LinHeader.start_header _ lin_start-Accesses
        (poll_then InUart _ budget _ _ (omega arith) (λ n. omega arith))))

rs485_set_up-Accesses : Accesses InUart Rs485.set_up
unfolding Rs485.set_up UartDriver.init UartDriver.config_rs485 UartDriver.enable_irq
    UartDriver.set_idle_cycles
rs485_set_up-Accesses = omega (arith, bit_or-IsU32)

pub uart_rs485-Accesses : (budget : ℕ) → Accesses InUart (Rs485.main budget)
unfolding Rs485.main Rs485.send_byte UartDriver.clear_irq
uart_rs485-Accesses budget = then_part InUart Rs485.set_up _ rs485_set_up-Accesses (
    then_part InUart (UartDriver.write budget 0x40001000 0x33) _
      (write-Accesses budget 0x33 (omega arith))
      (then_part InUart (UartDriver.write budget 0x40001000 0x55) _
        (write-Accesses budget 0x55 (omega arith))
        (poll_then InUart _ budget _ _ (omega arith) (λ n. omega arith))))

pub uart_isr-Accesses : (idle_count : ℕ) → Accesses InUart (Rs485.uart_isr idle_count)
unfolding Rs485.uart_isr UartDriver.status_word UartDriver.clear_irq
uart_isr-Accesses idle_count = (omega arith, λ v u. by_flag (Rs485.is_idle v))
  where
    by_flag :
        (b : Bool)
        → Accesses InUart (
            if b
            then (UartDriver.clear_irq Rs485.uart_base (UartDriver.irq_flag UartDriver.Irq.idle)
                >> ret (u32 (idle_count + 1)))
            else ret idle_count)
    by_flag true = omega arith
    by_flag false = tt
