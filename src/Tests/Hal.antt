-- ===== src/Tests/Hal.antt =====
-- Instances of the theorems on devkit/hal and devkit/sdk.
use qar_mvp.Prelude.{◌+◌, ◌-◌, ◌*◌, ◌≡◌, min, max, bit_at, refl, arith, pos, some, All}
use qar_mvp.Mmio.{exec, store, load}
use qar_mvp.Tests.Ram.{ram_width, ram_bus, ram, noise, Ram}
use qar_mvp.Hal.Uart
use qar_mvp.Hal.Spi
use qar_mvp.Hal.Can
use qar_mvp.Hal.Adc
use qar_mvp.Hal.Transfers.{PollsThen, transfers_lem}
use qar_mvp.Hal.Interrupts.{can, irq_en, enable_irq, disable_irq, ChangesBits, masks-ChangesBits}
use qar_mvp.Hal.Fields.{slave_word_fields, adc_fields, result_word}
use qar_mvp.Hal.Order
use qar_mvp.Sdk.{qar_sdk_init}
use qar_mvp.Sdk.Boot.{rest_table, settings, masked, Off, qar_sdk_init_lem}

transfers_example :
    PollsThen ram_bus
      (Uart.reg 0x40001000 Uart.Reg.status)
      (Uart.status_flag Uart.Status.tx_space)
      3
      (store (Uart.reg 0x40001000 Uart.Reg.fifo) 65)
      (Uart.write 3 0x40001000 65)
      noise
    × PollsThen ram_bus
        (Spi.reg 0x40001000 Spi.Reg.status)
        (Spi.status_flag Spi.Status.tx_ready)
        3
        (store (Spi.reg 0x40001000 Spi.Reg.txdata) 65)
        (Spi.write 3 0x40001000 65)
        noise
    × PollsThen ram_bus
        (Spi.reg 0x40001000 Spi.Reg.status)
        (Spi.status_flag Spi.Status.rx_valid)
        3
        (load (Spi.reg 0x40001000 Spi.Reg.rxdata))
        (Spi.read 3 0x40001000)
        noise
transfers_example = transfers_lem ram_bus 0x40001000 3 65 noise

masks_example :
    ChangesBits ram_bus ram_width ram
      (irq_en can 0x40003000)
      (λ k old. max old (bit_at 5 k))
      (enable_irq can 0x40003000 5)
      noise
    × ChangesBits ram_bus ram_width ram
        (irq_en can 0x40003000)
        (λ k old. min old (1 - bit_at 5 k))
        (disable_irq can 0x40003000 5)
        noise
masks_example =
    masks-ChangesBits ram_bus ram_width ram can 0x40003000 5 noise refl (λ e. refl) (omega arith)

slave_word_example : Uart.slave_word 0x21 4 (pos 1) ≡ 1 * 65536 + 0x21 * 256 + 4
slave_word_example = slave_word_fields 0x21 4 (pos 1) (omega arith) (omega arith)

adc_example :
    (exec ram_bus (Adc.start_single 0x40006000 6) noise
      ≡ some (tt, ram_bus.put 0x40006000 (1 + 4 + 2 * 16) noise))
    × (Adc.result_value (result_word 3 2 5 100) ≡ 100)
    × (Adc.result_channel (result_word 3 2 5 100) ≡ 2)
adc_example =
    adc_fields ram_bus noise 0x40006000 6 3 2 5 100 (omega arith) (omega arith) (omega arith)
      (omega arith)

init_example : Order.Enables ram_bus ram_width ram Order.can 0x40003000 0x13 4 noise
init_example =
    Order.init-Enables ram_bus ram_width ram Order.can 0x40003000 0x13 4 noise (omega arith)
      (omega arith)

send_word_example :
    (t : Ram) × (exec ram_bus (Can.send_word 0x40003000 0x123 1 2 8) noise
      ≡ some (tt, ram_bus.put (Can.reg 0x40003000 Can.Reg.tx_cmd) 1 t))
    × Order.Mailbox ram_bus ram_width ram 0x40003000 0x123 1 2 8 t
send_word_example =
    Order.send_word-Mailbox ram_bus ram_width ram 0x40003000 0x123 1 2 8 noise (omega arith)
      (omega arith) (omega arith) (omega arith) (omega arith) (refl, refl, refl, refl)

qar_sdk_init_example :
    (after : Ram) × (exec ram_bus qar_sdk_init noise ≡ some (tt, after))
    × All (λ row. ram.peek row.0 after ≡ row.1) rest_table
    × All (λ row. ram.peek row.0 after ≡ row.1) settings
    × All (Off (λ a. ram.peek a after)) masked
qar_sdk_init_example =
    qar_sdk_init_lem ram_bus ram_width ram noise (unfold rest_table in omega arith)
      (unfold settings in omega arith) (refl, (refl, (refl, tt)))
