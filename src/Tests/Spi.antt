-- ===== src/Tests/Spi.antt =====
-- The SPI example on a concrete controller.
use qar_mvp.Prelude.{
  ℕ, ◌%◌, ◌≡◌, refl, Bool, true, false, not, ◌&&◌, ◌==◌, if◌then◌else◌, bit_at, arith,
}
use qar_mvp.Mmio.{Bus}
use qar_mvp.Hal.Spi
use qar_mvp.Hal.Spi.{Reg}
use qar_mvp.Examples.SpiLoopback.{spi_base, main}
use qar_mvp.Examples.SpiLoopback.Laws.{
  Setup, LoopsBack, Transfers, IsController, Returns, main-Returns,
}

-- A controller that holds the word that came back, until it is read.
record Line : Type 0 where
  setup : Setup
  waiting : Bool
  word : ℕ

abbrev reg : Reg → ℕ
reg r = Spi.reg spi_base r

-- A word comes back when the controller is enabled, in loopback, with a chip selected.
abbrev comes_back : Setup → Bool
comes_back c = (bit_at c.ctrl 0 == 1) && ((bit_at c.ctrl 4 == 1) && not (c.cs % 16 == 0))

abbrev line_get : ℕ → Line → ℕ × Line
line_get a s =
    if a == reg Reg.status
    then (if s.waiting then 3 else 1, s)
    else if a == reg Reg.rxdata
    then (s.word, record s { waiting = false })
    else (0, s)

abbrev line_put : ℕ → ℕ → Line → Line
line_put a v s =
    if a == reg Reg.ctrl
    then record s { setup = record s.setup { ctrl = v } }
    else if a == reg Reg.clkdiv
    then record s { setup = record s.setup { clkdiv = v } }
    else if a == reg Reg.cs
    then record s { setup = record s.setup { cs = v } }
    else if (a == reg Reg.txdata) && comes_back s.setup
    then record s { waiting = true; word = v }
    else s

abbrev line_bus : Bus Line
line_bus = record { get = line_get; put = line_put }

abbrev IsIdle : Line → Type 0
IsIdle s = s.waiting ≡ false

comes_back_lem : (c : Setup) → LoopsBack c → comes_back c ≡ true
comes_back_lem c l = ground (arith, l.enabled, l.loopback, l.selected)

line-Transfers :
    (v : ℕ) (s : Line)
    → IsIdle s
    → LoopsBack s.setup
    → Transfers line_bus 1 (λ t. t.setup) IsIdle v s
line-Transfers v s idle loops =
    let test = comes_back_lem s.setup loops in
    record {
      tx_polls = 0;
      tx_fast = omega arith;
      tx_ready = rw idle (λ e. cc);
      rx_polls = 0;
      rx_fast = omega arith;
      rx_valid = rw test (λ e. cc);
      echoes = rw test refl;
      again = refl;
      kept = rw test refl;
    }

abbrev line : IsController line_bus 1
line = record {
  setup = λ s. s.setup;
  Idle = IsIdle;
  put_ctrl = λ v s small idle. (idle, refl);
  put_clkdiv = λ v s small idle. (idle, refl);
  put_cs = λ v s small idle. (idle, refl);
  transfers = line-Transfers;
}

-- Nothing is configured yet.
abbrev off : Line
off = record { setup = record { ctrl = 0; clkdiv = 0; cs = 0 }; waiting = false; word = 7 }

spi_example : Returns line_bus (main 1) (0xA5, 0x3C) off
spi_example = main-Returns line_bus 1 line off refl
