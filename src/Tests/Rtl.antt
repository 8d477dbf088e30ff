-- ===== src/Tests/Rtl.antt =====
-- The hardware of qar-core/rtl on concrete states.
use qar_mvp.Prelude.{
  ℕ, min, ◌+◌, ◌-◌, ◌*◌, ◌≡◌, refl, arith, true, false, none, some, [], ◌∷◌, bit_at, leb,
  if◌then◌else◌, ◌⊎◌,
}
use mathlib.Core.List.{map}
use qar_mvp.Mmio.{Bus, exec, ◌>>◌}
use qar_mvp.Hal.Gpio as PinDriver
use qar_mvp.Hal.Timer as TimerDriver
use qar_mvp.Examples.CanLoopback
use qar_mvp.Examples.CanLoopback.OnController.{queue}
use qar_mvp.Examples.GpioIrq.{firmware_delay}
use qar_mvp.Rtl.Can.{Frame, Controller, reset, p_ctrl, p_tx_cmd, bus_write}
use qar_mvp.Rtl.Can.Queue.{Queue, queue_write, Holds, bus_write-Holds}
use qar_mvp.Rtl.Can.Reads.{Shows, start, written, Reached-Shows}
use qar_mvp.Rtl.Can.Driver.{Copies, Runs, payload_of}
use qar_mvp.Rtl.Can.RoundTrip.{send_all, receive_all, everything, receive_all-send_all}
use qar_mvp.Rtl.Gpio.{Gpio, p_irq_status}
use qar_mvp.Rtl.Gpio as Pins
use qar_mvp.Rtl.Gpio.Samples.{settled}
use qar_mvp.Rtl.Gpio.Debounce.{Moment, after, Debounces}
use qar_mvp.Rtl.Gpio.Driver.{gpio_bus, read-settled}
use qar_mvp.Rtl.Gpio.Edges.{rise-Latched}
use qar_mvp.Rtl.Timer.{Timer}
use qar_mvp.Rtl.Timer as Clocks
use qar_mvp.Rtl.Timer.Watchdog.{timer_bus, Guards, clocks, clocks-Expires, kick_wdt-cases}
use qar_mvp.Rtl.Timer.Phase.{passed, highs}
use qar_mvp.Rtl.Timer.Pwm.{config_pwm-highs}
use qar_mvp.Rtl.Timer.Running as Running
use qar_mvp.Rtl.Timer.Running.{System, firmware_delay-Lasts}

abbrev frame : Frame
frame = record { id = 5; dlc = 2; data0 = 7; data1 = 9 }

-- In loopback with the filter bypassed.
abbrev looped : Controller
looped = record (reset (λ i. frame)) { ctrl = 11 }

looped-Holds : Holds looped (queue [] false)
looped-Holds = record {
  below = omega arith;
  heads = refl;
  fits = omega arith;
  stored = tt;
  pends = tt;
  lost = refl;
}

write_example : Holds (bus_write p_tx_cmd 1 looped) (queue_write p_tx_cmd 1 looped (queue [] false))
write_example = bus_write-Holds p_tx_cmd 1 looped (queue [] false) looped-Holds

abbrev after_command : Controller
after_command = bus_write p_tx_cmd 1 (bus_write p_ctrl 11 (reset (λ i. frame)))

reached_example : (q : Queue) × Holds after_command q × Shows after_command q
reached_example = Reached-Shows (written p_tx_cmd 1 (written p_ctrl 11 (start (λ i. frame))))

looped-Copies : Copies looped.ctrl
looped-Copies = record { enabled = refl; loopback = refl; loud = refl; bypass = refl }

frames_example :
    Runs
      (send_all (frame ∷ frame ∷ []) >> receive_all 2)
      looped
      (map (payload_of everything) (frame ∷ frame ∷ []))
      (queue [] false)
frames_example =
    receive_all-send_all (frame ∷ frame ∷ []) looped false looped-Holds looped-Copies (omega arith)

-- A running timer with prescaler 0, and its watchdog three ticks from expiry.
abbrev guarding : Timer
guarding = record Clocks.reset {
  ctrl = 1;
  counter = 4294967290;
  irq_en = 4;
  wdt_load = 1000;
  wdt_counter = 3;
  wdt_enable = true;
}

kick_example :
    (t : Timer) × (exec timer_bus (TimerDriver.kick_wdt TimerDriver.timer0_base) guarding
      ≡ some (tt, t))
    × (((leb guarding.prescale guarding.prescale_cnt ≡ true)
          × (t.wdt_counter ≡ guarding.wdt_counter - 1))
        ⊎ ((leb guarding.prescale guarding.prescale_cnt ≡ false)
            × (t.wdt_counter ≡ guarding.wdt_load)
            × (bit_at t.status 2 ≡ 0)))
kick_example = kick_wdt-cases guarding refl refl (omega arith)

guarding-Guards : Guards guarding
guarding-Guards = record { enabled = refl; unscaled = refl; armed = refl }

expiry_example :
    (bit_at (clocks (true ∷ false ∷ true ∷ []) guarding).status 2 ≡ 1)
    × ((clocks (true ∷ false ∷ true ∷ []) guarding).wdt_counter ≡ 0)
expiry_example =
    clocks-Expires (true ∷ false ∷ true ∷ []) guarding guarding-Guards (omega arith) refl

abbrev pins : Bus ℕ
pins = record { get = λ a s. (0, s); put = λ a v s. s }

abbrev system : System ℕ
system = record { timer = guarding; rest = 0; clocks = 4294967290 }

system-Runs : Running.Runs pins (λ n. 2) system
system-Runs = record { enabled = refl; unscaled = refl; counts = refl }

delay_example :
    Running.Lasts pins
      (λ n. 2)
      (firmware_delay 2000 1000)
      (4294967290 + 1000)
      (4294967290 + 1000 + 2 * 3)
      system
delay_example =
    firmware_delay-Lasts pins (λ n. 2) 3 2000 1000 system (λ n. omega arith) system-Runs
      (omega arith) (omega arith)

duty_example :
    (t : Timer) × (exec timer_bus
        (TimerDriver.config_pwm TimerDriver.timer0_base 1 1024 256)
        guarding
      ≡ some (tt, t))
    × (highs 1 1024 (passed 5 t) ≡ min 1024 256)
duty_example = config_pwm-highs 1 1024 256 5 guarding refl refl (omega arith) (omega arith)

-- Every pin is debounced over one cycle.
abbrev debouncing : Gpio
debouncing = record Pins.reset { debounce_enable = λ i. true; debounce_cycles = 1 }

debouncing-Debounces : Debounces 0 1 debouncing
debouncing-Debounces = record { is_input = refl; enabled = refl; window = refl }

abbrev pressed : Moment
pressed = record { inputs = record { pins = λ i. true; pwm0 = false; pwm1 = false }; write = none }

-- The interrupt of the pin is cleared while the pin is pressed.
abbrev cleared : Moment
cleared = record pressed { write = some (p_irq_status, 1) }

pins_example :
    (v : ℕ) × (t : Gpio) × (exec
        (gpio_bus pressed.inputs)
        (PinDriver.read PinDriver.gpio0_base)
        (after (pressed ∷ cleared ∷ pressed ∷ []) debouncing)
      ≡ some (v, t))
    × (bit_at v 0 ≡ (if settled 2 false (true ∷ true ∷ true ∷ []) then 1 else 0))
pins_example =
    read-settled pressed.inputs 0 1 (pressed ∷ cleared ∷ pressed ∷ []) debouncing (omega arith)
      (refl, (refl, (refl, tt))) debouncing-Debounces refl (omega arith)

edge_example :
    (after (pressed ∷ []) (after (cleared ∷ pressed ∷ pressed ∷ []) debouncing)).irq_status 0 ≡ true
edge_example =
    rise-Latched 0 1 (pressed ∷ []) cleared pressed (pressed ∷ []) debouncing
      (refl, (refl, (refl, tt))) debouncing-Debounces refl (omega arith) refl refl refl (refl, tt)
