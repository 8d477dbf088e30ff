-- ===== src/Rtl/Timer.antt =====
-- qar-core/rtl/timer.v, the timer behind devkit/hal/timer.h, clock by clock. The assignments take
-- effect together at the end of a clock, and of two to one register the later one counts.
pub mod Ticks
pub mod Watchdog
pub mod Running
pub mod Channel
pub mod Phase
pub mod Pwm
use qar_mvp.Prelude.{
  ℕ, ◌+◌, ◌-◌, ◌*◌, ◌^◌, ◌/◌, ◌%◌, Bool, true, false, not, ◌&&◌, ◌||◌, ◌==◌, if◌then◌else◌, ltb,
  leb, bit_and, bit_or, bit_at, complement32, u32, Option, none, some, List, [], ◌∷◌, get_or,
}

pub record Timer : Type 0 where
  pub ctrl : ℕ
  pub prescale : ℕ
  pub counter : ℕ
  pub status : ℕ
  pub irq_en : ℕ
  pub cmp0 : ℕ
  pub cmp0_period : ℕ
  pub cmp1 : ℕ
  pub cmp1_period : ℕ
  pub wdt_load : ℕ
  pub wdt_counter : ℕ
  pub wdt_enable : Bool
  pub pwm0_period : ℕ
  pub pwm0_duty : ℕ
  pub pwm1_period : ℕ
  pub pwm1_duty : ℕ
  pub capture_ctrl : ℕ
  pub capture0_value : ℕ
  pub capture1_value : ℕ
  pub pwm0_counter : ℕ
  pub pwm1_counter : ℕ
  pub pwm0_out : Bool
  pub pwm1_out : Bool
  pub prescale_cnt : ℕ

-- After `rst_n`.
abbrev pub reset : Timer
reset = record {
  ctrl = 0;
  prescale = 0;
  counter = 0;
  status = 0;
  irq_en = 0;
  cmp0 = 0;
  cmp0_period = 0;
  cmp1 = 0;
  cmp1_period = 0;
  wdt_load = 0;
  wdt_counter = 0;
  wdt_enable = false;
  pwm0_period = 0;
  pwm0_duty = 0;
  pwm1_period = 0;
  pwm1_duty = 0;
  capture_ctrl = 0;
  capture0_value = 0;
  capture1_value = 0;
  pwm0_counter = 0;
  pwm1_counter = 0;
  pwm0_out = false;
  pwm1_out = false;
  prescale_cnt = 0;
}

abbrev pub has_bit : ℕ → ℕ → Bool
has_bit v k = bit_at v k == 1

-- `status[k] <= 1'b0`.
abbrev pub clear_bit : ℕ → ℕ → ℕ
clear_bit k v = bit_and v (complement32 (2 ^ k))

-- The registers by their addresses.
pub data Port : Type 0 where
  p_ctrl p_prescale p_counter p_status p_irq_en p_cmp0 p_cmp0_period p_cmp1 p_cmp1_period : Port
  p_wdt_load p_wdt_ctrl p_wdt_count p_pwm0_period p_pwm0_duty p_pwm1_period p_pwm1_duty : Port
  p_pwm_status p_capture_ctrl p_capture0_value p_capture1_value p_none : Port

abbrev pub ports : List Port
ports =
    p_ctrl ∷ p_prescale ∷ p_counter ∷ p_status ∷ p_irq_en ∷ p_cmp0 ∷ p_cmp0_period ∷ p_cmp1
    ∷ p_cmp1_period ∷ p_wdt_load ∷ p_wdt_ctrl ∷ p_wdt_count ∷ p_pwm0_period ∷ p_pwm0_duty
    ∷ p_pwm1_period ∷ p_pwm1_duty ∷ p_pwm_status ∷ p_capture_ctrl ∷ p_capture0_value
    ∷ p_capture1_value ∷ []

abbrev pub port_of : ℕ → Port
port_of word = get_or ports word p_none

abbrev write_wdt_load : ℕ → Timer → Timer
write_wdt_load wdata s =
    if s.wdt_enable
    then record s { wdt_load = wdata; wdt_counter = wdata; status = clear_bit 2 s.status }
    else record s { wdt_load = wdata }

abbrev reload : Timer → Timer
reload s = record s { wdt_counter = s.wdt_load; status = clear_bit 2 s.status }

abbrev pub write_wdt_ctrl : ℕ → Timer → Timer
write_wdt_ctrl wdata s =
    let t = if (not s.wdt_enable && has_bit wdata 0) || has_bit wdata 1 then reload s else s in
    record t { wdt_enable = has_bit wdata 0 }

abbrev write_capture_ctrl : ℕ → Timer → Timer
write_capture_ctrl wdata s = record s {
  capture_ctrl = wdata;
  capture0_value = if has_bit wdata 0 then s.counter else s.capture0_value;
  capture1_value = if has_bit wdata 1 then s.counter else s.capture1_value;
  status =
      let v = if has_bit wdata 0 then bit_or s.status 8 else s.status in
      if has_bit wdata 1 then bit_or v 16 else v;
}

-- The register writes of a clock.
unfoldable pub bus_write : Port → ℕ → Timer → Timer
bus_write p_ctrl wdata s = record s { ctrl = wdata }
bus_write p_prescale wdata s = record s { prescale = wdata }
bus_write p_counter wdata s = record s { counter = wdata }
bus_write p_status wdata s = record s { status = bit_and s.status (complement32 wdata) }
bus_write p_irq_en wdata s = record s { irq_en = wdata }
bus_write p_cmp0 wdata s = record s { cmp0 = wdata }
bus_write p_cmp0_period wdata s = record s { cmp0_period = wdata }
bus_write p_cmp1 wdata s = record s { cmp1 = wdata }
bus_write p_cmp1_period wdata s = record s { cmp1_period = wdata }
bus_write p_wdt_load wdata s = write_wdt_load wdata s
bus_write p_wdt_ctrl wdata s = write_wdt_ctrl wdata s
bus_write p_pwm0_period wdata s = record s { pwm0_period = wdata; pwm0_counter = 0 }
bus_write p_pwm0_duty wdata s = record s { pwm0_duty = wdata }
bus_write p_pwm1_period wdata s = record s { pwm1_period = wdata; pwm1_counter = 0 }
bus_write p_pwm1_duty wdata s = record s { pwm1_duty = wdata }
bus_write p_capture_ctrl wdata s = write_capture_ctrl wdata s
bus_write _ wdata s = s

-- The parts of a tick: what the registers `s` of this clock assign on top of the writes `t`.
abbrev pub count_wdt : Timer → Timer → Timer
count_wdt s t =
    if s.wdt_enable && not (s.wdt_counter == 0)
    then record t {
      wdt_counter = s.wdt_counter - 1;
      status = if s.wdt_counter == 1 then bit_or t.status 4 else t.status;
    }
    else t

abbrev compare0 : Timer → Timer → Timer
compare0 s t =
    if not (s.cmp0 == 0) && (s.counter == s.cmp0)
    then record t {
      status = bit_or t.status 1;
      cmp0 =
          if has_bit s.ctrl 1 && not (s.cmp0_period == 0)
          then u32 (s.cmp0 + s.cmp0_period)
          else t.cmp0;
    }
    else t

abbrev compare1 : Timer → Timer → Timer
compare1 s t =
    if not (s.cmp1 == 0) && (s.counter == s.cmp1)
    then record t {
      status = bit_or t.status 2;
      cmp1 =
          if has_bit s.ctrl 2 && not (s.cmp1_period == 0)
          then u32 (s.cmp1 + s.cmp1_period)
          else t.cmp1;
    }
    else t

-- The counter of a PWM channel; `pwm0_counter + 1` has 32 bits.
abbrev pub next_pwm : ℕ → ℕ → ℕ
next_pwm period count =
    if period == 0 then 0 else if leb period (u32 (count + 1)) then 0 else u32 (count + 1)

abbrev pub pwm_level : ℕ → ℕ → ℕ → Bool
pwm_level period duty count = not (period == 0) && ltb count duty

abbrev count_pwm : Timer → Timer → Timer
count_pwm s t = record t {
  pwm0_counter = next_pwm s.pwm0_period s.pwm0_counter;
  pwm1_counter = next_pwm s.pwm1_period s.pwm1_counter;
  pwm0_out = pwm_level s.pwm0_period s.pwm0_duty s.pwm0_counter;
  pwm1_out = pwm_level s.pwm1_period s.pwm1_duty s.pwm1_counter;
}

unfoldable pub tick : Timer → Timer → Timer
tick s t =
    if has_bit s.ctrl 0
    then (if leb s.prescale s.prescale_cnt
        then count_pwm s (
            compare1 s (
              compare0 s
                (count_wdt s (record t { prescale_cnt = 0; counter = u32 (s.counter + 1) }))))
        else record t { prescale_cnt = u32 (s.prescale_cnt + 1) })
    else record t {
      prescale_cnt = 0;
      pwm0_counter = 0;
      pwm1_counter = 0;
      pwm0_out = not (s.pwm0_period == 0) && not (s.pwm0_duty == 0);
      pwm1_out = not (s.pwm1_period == 0) && not (s.pwm1_duty == 0);
    }

-- The write of a clock, if there is one.
abbrev pub written : Option (Port × ℕ) → Timer → Timer
written none s = s
written (some (p, wdata)) s = bus_write p wdata s

-- One clock, outside a reset.
unfoldable pub clock : Option (Port × ℕ) → Timer → Timer
clock write s = tick s (written write s)

abbrev bit : Bool → ℕ
bit b = if b then 1 else 0

unfoldable pub bus_read : Port → Timer → ℕ
bus_read p_ctrl s = s.ctrl
bus_read p_prescale s = s.prescale
bus_read p_counter s = s.counter
bus_read p_status s = s.status
bus_read p_irq_en s = s.irq_en
bus_read p_cmp0 s = s.cmp0
bus_read p_cmp0_period s = s.cmp0_period
bus_read p_cmp1 s = s.cmp1
bus_read p_cmp1_period s = s.cmp1_period
bus_read p_wdt_load s = s.wdt_load
bus_read p_wdt_ctrl s = bit s.wdt_enable
bus_read p_wdt_count s = s.wdt_counter
bus_read p_pwm0_period s = s.pwm0_period
bus_read p_pwm0_duty s = s.pwm0_duty
bus_read p_pwm1_period s = s.pwm1_period
bus_read p_pwm1_duty s = s.pwm1_duty
bus_read p_pwm_status s = 2 * bit s.pwm1_out + bit s.pwm0_out
bus_read p_capture_ctrl s = s.capture_ctrl
bus_read p_capture0_value s = s.capture0_value
bus_read p_capture1_value s = s.capture1_value
bus_read p_none s = 0
