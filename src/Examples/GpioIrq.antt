-- ===== src/Examples/GpioIrq.antt =====
-- devkit/examples/c/gpio_irq_demo.c.
pub mod Delay
pub mod Heartbeat
use qar_mvp.Prelude.{
  ℕ, zero, suc, ◌+◌, ◌-◌, ◌^◌, Bool, true, false, not, bit_and, ltb, ◌==◌, if◌then◌else◌, u32,
  ◌<<<◌,
}
use qar_mvp.Mmio.{Io, ret, load, store, poll_until, ◌>>=◌, ◌>>◌}
use qar_mvp.Hal.Gpio
use qar_mvp.Hal.Timer

abbrev pub gpio_base : ℕ
gpio_base = Gpio.gpio0_base

abbrev pub timer_base : ℕ
timer_base = Timer.timer0_base

abbrev pub counter : ℕ
counter = Timer.reg timer_base Timer.Reg.counter

-- The test of the busy-wait has failed: `(now - start) < ticks` on `uint32_t`.
abbrev pub elapsed : ℕ → ℕ → ℕ → Bool
elapsed start ticks now = not (ltb (u32 (now + 2 ^ 32 - start)) ticks)

unfoldable pub firmware_delay : ℕ → ℕ → Io (Unit {0})
firmware_delay budget ticks = do
  start ← load counter
  rounds ← poll_until (elapsed start ticks) budget counter
  ret tt

abbrev pub button_mask : ℕ
button_mask = 1 <<< 8

-- Up to the loop.
unfoldable pub set_up : Io (Unit {0})
unfolding Gpio.config_dir Gpio.write Gpio.config_irq Gpio.config_debounce Timer.init
set_up = do
  Gpio.config_dir gpio_base 0x00FF
  store (Gpio.reg gpio_base Gpio.Reg.alt_pwm) 0x0003
  Gpio.write gpio_base 0x0005
  Gpio.config_irq gpio_base button_mask button_mask button_mask
  Gpio.config_debounce gpio_base button_mask 64
  Timer.init timer_base 0 (Timer.ctrl_flag Timer.Ctrl.enable)

-- The answer to the button.
unfoldable pub blink : ℕ → Io (Unit {0})
unfolding Gpio.set Gpio.clear Gpio.clear_irq
blink budget = do
  Gpio.set gpio_base 0x1
  firmware_delay budget 1000
  Gpio.clear gpio_base 0x1
  Gpio.clear_irq gpio_base button_mask

abbrev pub next_pattern : ℕ → ℕ
next_pattern pattern = if pattern == 0x0080 then 0x0001 else u32 (pattern <<< 1)

-- The first half of the loop's body.
unfoldable pub answer_button : ℕ → Io (Unit {0})
answer_button budget = do
  irq_status ← load (Gpio.reg gpio_base Gpio.Reg.irq_status)
  if bit_and irq_status button_mask == 0 then ret tt else blink budget

-- The body of the loop, on the static `pattern`.
unfoldable pub round : ℕ → ℕ → Io ℕ
unfolding Gpio.write
round budget pattern = do
  answer_button budget
  Gpio.write gpio_base pattern
  firmware_delay budget 5000
  ret (next_pattern pattern)

-- The first `n` rounds.
unfoldable pub rounds : ℕ → ℕ → ℕ → Io ℕ
rounds budget zero pattern = ret pattern
rounds budget (suc n) pattern = round budget pattern >>= rounds budget n

-- `main`, for `n` rounds of its loop; the static `pattern` starts at 1.
unfoldable pub main : ℕ → ℕ → Io ℕ
main budget n = do set_up; rounds budget n 0x0001
