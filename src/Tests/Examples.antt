-- ===== src/Tests/Examples.antt =====
-- The example programs on concrete hardware.
use qar_mvp.Prelude.{ℕ, suc, ◌+◌, ◌%◌, ◌^◌, ◌≡◌, refl, arith, [], some}
use qar_mvp.Mmio.{Bus, exec, Accesses}
use qar_mvp.Mmio.Device.{Ends}
use qar_mvp.Examples.GpioIrq.{firmware_delay, rounds}
use qar_mvp.Examples.GpioIrq.Delay.{Clock}
use qar_mvp.Examples.GpioIrq.Heartbeat.{Beats, rounds-Beats}
use qar_mvp.Examples.Mapped.{examples-Accesses}
use qar_mvp.Examples.Mapped.Serial.{InCan, InSpi, InI2c, InUart}
use qar_mvp.Examples.Mapped.Timed.{InTimer, InGpioOrTimer}
use qar_mvp.Examples.CanLoopback
use qar_mvp.Examples.GpioIrq
use qar_mvp.Examples.I2cLoopback
use qar_mvp.Examples.LinHeader
use qar_mvp.Examples.TimerPwm
use qar_mvp.Examples.TimerHal
use qar_mvp.Examples.Rs485
use qar_mvp.Examples.Rs485.{uart_isr}
use qar_mvp.Examples.Rs485.Counts.{Served, start, moved, handled, Served-counts}
use qar_mvp.Hal.Uart
use qar_mvp.Examples.SpiLoopback.{spi_base}
use qar_mvp.Examples.SpiLoopback as SpiExample
use qar_mvp.Examples.TimerPwm.{ramp}
use qar_mvp.Examples.TimerPwm.Laws.{Paired, ramp-Paired}

-- A counter that each read moves on by one; nothing else is there.
abbrev tick_bus : Bus ℕ
tick_bus = record { get = λ a t. (t % 2 ^ 32, t + 1); put = λ a v t. t }

abbrev tick_clock : Clock tick_bus 1
tick_clock = record {
  time = λ t. t;
  running = λ t. Unit;
  shows = λ t on. refl;
  later = λ t on. omega arith;
  soon = λ t on. omega arith;
  get_running = λ a t on. tt;
  put_running = λ a v t pins on. tt;
}

heartbeat_run_example :
    (t : ℕ) × (exec tick_bus (rounds 6000 3 (2 ^ (6 % 8))) 9 ≡ some (2 ^ ((6 + 3) % 8), t))
    × Beats tick_bus 1 tick_clock 6000 3 6 9 t
heartbeat_run_example = rounds-Beats tick_bus 1 tick_clock 6000 3 6 9 tt (omega arith) (omega arith)

ramp_example : Ends Paired [] (ramp (suc 16) 0)
ramp_example = ramp-Paired 16 0 [] (omega arith) (omega arith) tt

mapped_example :
    Accesses InCan (CanLoopback.main 9)
    × Accesses InSpi (SpiExample.main 9)
    × Accesses InI2c (I2cLoopback.main 9)
    × Accesses InUart (LinHeader.main 9)
    × Accesses InUart (Rs485.main 9)
    × Accesses InUart (Rs485.uart_isr 0)
    × Accesses InTimer (TimerHal.timer_example 9 0)
    × Accesses InGpioOrTimer (TimerPwm.main 17 3)
    × Accesses InGpioOrTimer (GpioIrq.main 9 3)
mapped_example = examples-Accesses 9 3 17 0 0

-- A UART whose registers all read as 64, which has the idle flag.
abbrev idle_bus : Bus ℕ
idle_bus = record { get = λ a s. (64, s); put = λ a v s. s }

served : Served idle_bus 5 0 6 1 1
unfolding uart_isr Uart.status_word Uart.clear_irq
served = handled {u = 1} (moved 1 start) refl

counts_example : 6 ≡ (5 + 1) % 2 ^ 32
counts_example = Served-counts idle_bus served (omega arith)
