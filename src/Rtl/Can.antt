-- ===== src/Rtl/Can.antt =====
-- qar-core/rtl/can.v, the controller behind devkit/hal/can.h. All its registers change with a bus
-- write alone, in one clock, so a state stands for the registers between two accesses.

pub mod Slots
pub mod Queue
pub mod Reads
pub mod Driver
pub mod RoundTrip
use qar_mvp.Prelude.{
  ℕ, ◌+◌, ◌-◌, ◌*◌, ◌/◌, ◌%◌, Bool, true, false, not, ◌&&◌, ◌||◌, ◌==◌, if◌then◌else◌, ltb, bit_and,
  bit_or, bit_at, complement32, u32, List, [], ◌∷◌, get_or,
}
use qar_mvp.Mmio.{Bus}

pub record Frame : Type 0 where
  pub id : ℕ
  pub dlc : ℕ
  pub data0 : ℕ
  pub data1 : ℕ

-- The registers. `rx_pending`, `tx_idle` and `rx_overflow` are the bits 0 to 2 of `status`, whose
-- other bits are never set; `slots` are the four arrays of the FIFO.
pub record Controller : Type 0 where
  pub ctrl : ℕ
  pub rx_pending : Bool
  pub tx_idle : Bool
  pub rx_overflow : Bool
  pub bittime : ℕ
  pub err_counter : ℕ
  pub irq_en : ℕ
  pub irq_status : ℕ
  pub filter_id : ℕ
  pub filter_mask : ℕ
  pub tx_id : ℕ
  pub tx_dlc : ℕ
  pub tx_data0 : ℕ
  pub tx_data1 : ℕ
  pub slots : ℕ → Frame
  pub rx_head : ℕ
  pub rx_tail : ℕ

abbrev pub has_bit : ℕ → ℕ → Bool
has_bit v k = bit_at v k == 1

abbrev pub bit : Bool → ℕ
bit b = if b then 1 else 0

-- After `rst_n`; the arrays are not reset.
abbrev pub reset : (ℕ → Frame) → Controller
reset slots = record {
  ctrl = 1;
  rx_pending = false;
  tx_idle = true;
  rx_overflow = false;
  bittime = 0x13;
  err_counter = 0;
  irq_en = 0;
  irq_status = 0;
  filter_id = 0;
  filter_mask = 0;
  tx_id = 0;
  tx_dlc = 0;
  tx_data0 = 0;
  tx_data1 = 0;
  slots = slots;
  rx_head = 0;
  rx_tail = 0;
}

-- The difference of two three-bit pointers.
abbrev pub rx_entries : Controller → ℕ
rx_entries s = (s.rx_head + 8 - s.rx_tail) % 8

-- The frame is copied into the FIFO.
abbrev pub accepts : Controller → Bool
accepts s =
    has_bit s.ctrl 1
    && (not (has_bit s.ctrl 2)
        && (has_bit s.ctrl 3
            || (bit_and s.tx_id s.filter_mask == bit_and s.filter_id s.filter_mask)))

abbrev pub mailbox : Controller → Frame
mailbox s = record { id = s.tx_id; dlc = s.tx_dlc; data0 = s.tx_data0; data1 = s.tx_data1 }

abbrev pub set_slot : ℕ → Frame → (ℕ → Frame) → (ℕ → Frame)
set_slot i f slots = λ j. if j == i then f else slots j

unfoldable pub receive : Controller → Controller
receive s =
    if ltb (rx_entries s) 4
    then record s {
      slots = set_slot (s.rx_head % 4) (mailbox s) s.slots;
      rx_head = (s.rx_head + 1) % 8;
      rx_pending = true;
      irq_status = bit_or s.irq_status 1;
    }
    else record s {
      err_counter = u32 (s.err_counter + 1);
      rx_overflow = true;
      irq_status = bit_or s.irq_status 4;
    }

-- The transmitter is idle again in the same clock.
abbrev pub transmitted : Controller → Controller
transmitted s = record s { tx_idle = true; irq_status = bit_or s.irq_status 2 }

unfoldable pub send : Controller → Controller
send s = if has_bit s.ctrl 0 then transmitted (if accepts s then receive s else s) else s

abbrev pub flush : Controller → Controller
flush s = record s { rx_tail = s.rx_head; rx_pending = false }

abbrev pub pop : Controller → Controller
pop s = record s {
  rx_tail = (s.rx_tail + 1) % 8;
  rx_pending = if rx_entries s == 1 then false else s.rx_pending;
}

abbrev pub clear_overflow : Controller → Controller
clear_overflow s = record s {
  rx_overflow = false;
  irq_status = bit_and s.irq_status (complement32 4);
}

unfoldable pub fifo_control : ℕ → Controller → Controller
fifo_control wdata s =
    let moved =
      if has_bit wdata 1
      then flush s
      else if has_bit wdata 0 && not (rx_entries s == 0)
      then pop s
      else s in
    if has_bit wdata 2 then clear_overflow moved else moved

unfoldable pub clear_irq : ℕ → Controller → Controller
clear_irq wdata s = record s {
  irq_status = bit_and s.irq_status (complement32 wdata);
  rx_pending = if has_bit wdata 0 then false else s.rx_pending;
  tx_idle = if has_bit wdata 1 then true else s.tx_idle;
}

-- The registers by their addresses.
pub data Port : Type 0 where
  p_ctrl p_status p_bittime p_err_counter p_irq_en p_irq_status p_filter_id p_filter_mask : Port
  p_tx_id p_tx_dlc p_tx_data0 p_tx_data1 p_tx_cmd p_rx_id p_rx_dlc p_rx_data0 p_rx_data1 : Port
  p_rx_fifo p_none : Port

abbrev pub ports : List Port
ports =
    p_ctrl ∷ p_status ∷ p_bittime ∷ p_err_counter ∷ p_irq_en ∷ p_irq_status ∷ p_filter_id
    ∷ p_filter_mask ∷ p_tx_id ∷ p_tx_dlc ∷ p_tx_data0 ∷ p_tx_data1 ∷ p_tx_cmd ∷ p_rx_id ∷ p_rx_dlc
    ∷ p_rx_data0 ∷ p_rx_data1 ∷ p_rx_fifo ∷ []

abbrev pub port_of : ℕ → Port
port_of word = get_or ports word p_none

unfoldable pub bus_write : Port → ℕ → Controller → Controller
bus_write p_ctrl wdata s = record s { ctrl = wdata }
bus_write p_bittime wdata s = record s { bittime = wdata }
bus_write p_err_counter wdata s = record s { err_counter = wdata }
bus_write p_irq_en wdata s = record s { irq_en = wdata }
bus_write p_irq_status wdata s = clear_irq wdata s
bus_write p_filter_id wdata s = record s { filter_id = wdata }
bus_write p_filter_mask wdata s = record s { filter_mask = wdata }
bus_write p_tx_id wdata s = record s { tx_id = wdata }
bus_write p_tx_dlc wdata s = record s { tx_dlc = wdata }
bus_write p_tx_data0 wdata s = record s { tx_data0 = wdata }
bus_write p_tx_data1 wdata s = record s { tx_data1 = wdata }
bus_write p_tx_cmd wdata s = send s
bus_write p_rx_fifo wdata s = fifo_control wdata s
bus_write _ wdata s = s

-- `rdata` while `bus_read` is up. The last concatenation has 33 bits, of which the highest is cut
-- off: the overflow flag is bit 4.
unfoldable pub bus_read : Port → Controller → ℕ
bus_read p_ctrl s = s.ctrl
bus_read p_status s = bit s.rx_pending + 2 * bit s.tx_idle + 4 * bit s.rx_overflow
bus_read p_bittime s = s.bittime
bus_read p_err_counter s = s.err_counter
bus_read p_irq_en s = s.irq_en
bus_read p_irq_status s = s.irq_status
bus_read p_filter_id s = s.filter_id
bus_read p_filter_mask s = s.filter_mask
bus_read p_tx_id s = s.tx_id
bus_read p_tx_dlc s = s.tx_dlc
bus_read p_tx_data0 s = s.tx_data0
bus_read p_tx_data1 s = s.tx_data1
bus_read p_rx_id s = (s.slots (s.rx_tail % 4)).id
bus_read p_rx_dlc s = (s.slots (s.rx_tail % 4)).dlc
bus_read p_rx_data0 s = (s.slots (s.rx_tail % 4)).data0
bus_read p_rx_data1 s = (s.slots (s.rx_tail % 4)).data1
bus_read p_rx_fifo s = 16 * bit s.rx_overflow + rx_entries s
bus_read _ s = 0

-- `can0_addr_word` of qar-core/rtl/qar_core.v: bits 2 to 7 of the address.
abbrev pub addr_word : ℕ → ℕ
addr_word a = a / 4 % 64

-- The controller as a driver sees it whose accesses all select it.
abbrev pub can_bus : Bus Controller
can_bus = record {
  get = λ a s. (bus_read (port_of (addr_word a)) s, s);
  put = λ a v s. bus_write (port_of (addr_word a)) v s;
}
