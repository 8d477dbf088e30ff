-- ===== src/Rtl/Gpio.antt =====
-- qar-core/rtl/gpio.v, the pins behind devkit/hal/gpio.h, clock by clock, with its 32 pins in
-- qar-core/rtl/qar_core.v. A register with a bit for each pin is a function of the pin; the assignments
-- of a clock go by the registers before it.
pub mod Samples
pub mod Debounce
pub mod Edges
pub mod Driver
use qar_mvp.Prelude.{
  ℕ, zero, suc, ◌+◌, ◌*◌, Bool, true, false, not, ◌&&◌, ◌||◌, ◌==◌, if◌then◌else◌, leb, bit_at, u16,
  Option, none, some, List, [], ◌∷◌, get_or,
}

abbrev pub Pins : Type 0
Pins = ℕ → Bool

pub record Gpio : Type 0 where
  pub dir : Pins
  pub out : Pins
  pub alt_pwm : Pins
  pub irq_enable : Pins
  pub irq_status : Pins
  pub irq_rise : Pins
  pub irq_fall : Pins
  pub last_input : Pins
  pub debounce_enable : Pins
  pub debounce_cycles : ℕ
  pub debounced : Pins
  pub debounce_counter : ℕ → ℕ

-- What comes in from outside in a clock.
pub record Inputs : Type 0 where
  pub pins : Pins
  pub pwm0 : Bool
  pub pwm1 : Bool

abbrev pub bits : ℕ → Pins
bits v = λ i. bit_at v i == 1

-- After `rst_n`.
abbrev pub reset : Gpio
reset = record {
  dir = λ i. false;
  out = λ i. false;
  alt_pwm = λ i. false;
  irq_enable = λ i. false;
  irq_status = λ i. false;
  irq_rise = λ i. true;
  irq_fall = λ i. false;
  last_input = λ i. false;
  debounce_enable = λ i. false;
  debounce_cycles = 32;
  debounced = λ i. false;
  debounce_counter = λ i. 0;
}

abbrev pub override_mask : Gpio → Pins
override_mask s = λ i. ((i == 0) || (i == 1)) && s.alt_pwm i

abbrev pub override_value : Inputs → Gpio → Pins
override_value x s =
    λ i. if i == 0 then s.alt_pwm 0 && x.pwm0 else if i == 1 then s.alt_pwm 1 && x.pwm1 else false

abbrev pub hw_out : Inputs → Gpio → Pins
hw_out x s = λ i. (s.out i && not (override_mask s i)) || override_value x s i

abbrev pub input_only : Inputs → Gpio → Pins
input_only x s = λ i. not (s.dir i) && x.pins i

abbrev pub threshold : Gpio → ℕ
threshold s = if s.debounce_cycles == 0 then 1 else s.debounce_cycles

abbrev pub filtered : Gpio → Pins
filtered s = λ i. not (s.dir i) && s.debounced i

abbrev pub events : Gpio → Pins
events s = λ i.
    ((not (s.last_input i) && filtered s i) && s.irq_rise i)
    || ((s.last_input i && not (filtered s i)) && s.irq_fall i)

-- The registers by their addresses.
pub data Port : Type 0 where
  p_dir p_out p_in p_out_set p_out_clr p_irq_en p_irq_status p_alt_pwm p_irq_rise p_irq_fall : Port
  p_db_en p_db_cycles p_none : Port

abbrev pub ports : List Port
ports =
    p_dir ∷ p_out ∷ p_in ∷ p_out_set ∷ p_out_clr ∷ p_irq_en ∷ p_irq_status ∷ p_alt_pwm ∷ p_irq_rise
    ∷ p_irq_fall ∷ p_db_en ∷ p_db_cycles ∷ []

abbrev pub port_of : ℕ → Port
port_of word = get_or ports word p_none

-- The register writes of a clock; the interrupt status is written by `clear_mask`.
unfoldable pub bus_write : Port → ℕ → Gpio → Gpio
bus_write p_dir wdata s = record s { dir = bits wdata }
bus_write p_out wdata s = record s { out = bits wdata }
bus_write p_out_set wdata s = record s { out = λ i. s.out i || bits wdata i }
bus_write p_out_clr wdata s = record s { out = λ i. s.out i && not (bits wdata i) }
bus_write p_irq_en wdata s = record s { irq_enable = bits wdata }
bus_write p_alt_pwm wdata s = record s { alt_pwm = bits wdata }
bus_write p_irq_rise wdata s = record s { irq_rise = bits wdata }
bus_write p_irq_fall wdata s = record s { irq_fall = bits wdata }
bus_write p_db_en wdata s = record s { debounce_enable = bits wdata }
bus_write p_db_cycles wdata s = record s { debounce_cycles = u16 wdata }
bus_write _ wdata s = s

abbrev pub written : Option (Port × ℕ) → Gpio → Gpio
written none s = s
written (some (p, wdata)) s = bus_write p wdata s

abbrev pub clear_mask : Option (Port × ℕ) → Pins
clear_mask (some (p_irq_status, wdata)) = bits wdata
clear_mask _ = λ i. false

abbrev pub same_level : Bool → Bool → Bool
same_level a b = if a then b else not b

-- The level and the counter of a pin after a clock.
abbrev pub debounce : Inputs → Gpio → ℕ → Bool × ℕ
debounce x s i =
    if s.dir i
    then (hw_out x s i, 0)
    else if not (s.debounce_enable i)
    then (input_only x s i, 0)
    else if same_level (input_only x s i) (s.debounced i)
    then (s.debounced i, 0)
    else if leb (threshold s) (s.debounce_counter i)
    then (input_only x s i, 0)
    else (s.debounced i, u16 (s.debounce_counter i + 1))

-- One clock, outside a reset.
unfoldable pub clock : Option (Port × ℕ) → Inputs → Gpio → Gpio
clock write x s = record (written write s) {
  debounced = λ i. (debounce x s i).0;
  debounce_counter = λ i. (debounce x s i).1;
  irq_status = λ i. (s.irq_status i && not (clear_mask write i)) || events s i;
  last_input = filtered s;
}

-- A word from its lowest bits on.
abbrev pub word_of : ℕ → Pins → ℕ
word_of zero f = 0
word_of (suc n) f = (if f 0 then 1 else 0) + 2 * word_of n (λ i. f (i + 1))

unfoldable pub bus_read : Port → Inputs → Gpio → ℕ
bus_read p_dir x s = word_of 32 s.dir
bus_read p_out x s = word_of 32 s.out
bus_read p_in x s = word_of 32 (λ i. (s.dir i && hw_out x s i) || filtered s i)
bus_read p_irq_en x s = word_of 32 s.irq_enable
bus_read p_irq_status x s = word_of 32 s.irq_status
bus_read p_alt_pwm x s = word_of 32 s.alt_pwm
bus_read p_irq_rise x s = word_of 32 s.irq_rise
bus_read p_irq_fall x s = word_of 32 s.irq_fall
bus_read p_db_en x s = word_of 32 s.debounce_enable
bus_read p_db_cycles x s = s.debounce_cycles
bus_read _ x s = 0
