-- ===== src/Examples/SpiLoopback/Laws.antt =====
-- devkit/examples/c/spi_loopback.c on a controller as docs/peripherals/spi.md describes it.
use qar_mvp.Prelude.{
  ℕ, suc, ◌%◌, ◌^◌, ◌<◌, ◌≡◌, ◌≢◌, refl, ap, ◌∙◌, some, bit_at, bit_and, bit_and_mask, u8, arith,
}
use qar_mvp.Mmio.{Io, Bus, exec, exec->>=}
use qar_mvp.Mmio.Polling.{polled, ReadyAfter, wait_for_ready}
use qar_mvp.Hal.Spi
use qar_mvp.Examples.SpiLoopback.{spi_base, spi_exchange, main}

abbrev pub status : ℕ
status = Spi.reg spi_base Spi.Reg.status

abbrev pub rxdata : ℕ
rxdata = Spi.reg spi_base Spi.Reg.rxdata

-- The configuration registers that a transfer goes by.
pub record Setup : Type 0 where
  pub ctrl : ℕ
  pub clkdiv : ℕ
  pub cs : ℕ

-- Enabled, in loopback, with a chip selected, and at the divider of the example.
pub record LoopsBack (c : Setup) : Type 0 where
  pub enabled : bit_at c.ctrl 0 ≡ 1
  pub loopback : bit_at c.ctrl 4 ≡ 1
  pub selected : c.cs % 16 ≢ 0
  pub divider : c.clkdiv ≡ 1

-- The state in which a word has been written, after the polls for the transmitter, and the one in which
-- it can be read, after those for the receiver.
abbrev sent : {S : Type 0} → Bus S → ℕ → ℕ → S → S
sent bus tx_polls v s =
    bus.put (Spi.reg spi_base Spi.Reg.txdata) v
      (polled bus status (Spi.status_flag Spi.Status.tx_ready) (suc tx_polls) s)

abbrev arrived : {S : Type 0} → Bus S → ℕ → S → S
arrived bus rx_polls s = polled bus status (Spi.status_flag Spi.Status.rx_valid) (suc rx_polls) s

-- A word that is written goes out and comes back, its low byte unchanged, each within the budget, and
-- when it has been read the controller is idle again.
pub record Transfers {S : Type 0} (bus : Bus S) (budget : ℕ) (setup : S → Setup) (Idle : S → Type 0)
    (v : ℕ) (s : S) : Type 0 where
  pub tx_polls : ℕ
  pub tx_fast : tx_polls < budget
  pub tx_ready : ReadyAfter bus status (Spi.status_flag Spi.Status.tx_ready) tx_polls s
  pub rx_polls : ℕ
  pub rx_fast : rx_polls < budget
  pub rx_valid :
      ReadyAfter bus status (Spi.status_flag Spi.Status.rx_valid) rx_polls (sent bus tx_polls v s)
  pub echoes : (bus.get rxdata (arrived bus rx_polls (sent bus tx_polls v s))).0 % 256 ≡ v % 256
  pub again : Idle (bus.get rxdata (arrived bus rx_polls (sent bus tx_polls v s))).1
  pub kept : setup (bus.get rxdata (arrived bus rx_polls (sent bus tx_polls v s))).1 ≡ setup s

-- The controller: an idle one, with both FIFOs empty, takes its configuration, and transfers a word when
-- that is right.
pub record IsController {S : Type 0} (bus : Bus S) (budget : ℕ) : Type 1 where
  pub setup : S → Setup
  pub Idle : S → Type 0
  pub put_ctrl :
      (v : ℕ) (s : S)
      → v < 2 ^ 32
      → Idle s
      → Idle (bus.put (Spi.reg spi_base Spi.Reg.ctrl) v s)
        × (setup (bus.put (Spi.reg spi_base Spi.Reg.ctrl) v s) ≡ record (setup s) { ctrl = v })
  pub put_clkdiv :
      (v : ℕ) (s : S)
      → v < 2 ^ 32
      → Idle s
      → Idle (bus.put (Spi.reg spi_base Spi.Reg.clkdiv) v s)
        × (setup (bus.put (Spi.reg spi_base Spi.Reg.clkdiv) v s) ≡ record (setup s) { clkdiv = v })
  pub put_cs :
      (v : ℕ) (s : S)
      → v < 2 ^ 32
      → Idle s
      → Idle (bus.put (Spi.reg spi_base Spi.Reg.cs) v s)
        × (setup (bus.put (Spi.reg spi_base Spi.Reg.cs) v s) ≡ record (setup s) { cs = v })
  pub transfers :
      (v : ℕ) (s : S) → Idle s → LoopsBack (setup s) → Transfers bus budget setup Idle v s

-- A run that ends with a result.
pub record Returns {S A : Type 0} (bus : Bus S) (io : Io A) (x : A) (s : S) : Type 0 where
  pub after : S
  pub runs : exec bus io s ≡ some (x, after)

module _ {S : Type 0} (bus : Bus S) (budget : ℕ) (c : IsController bus budget) where
  open c use {setup, Idle, put_ctrl, put_clkdiv, put_cs, transfers}

  -- An exchange returns the word, and the controller is ready for the next one.
  record Exchanges (v : ℕ) (s : S) : Type 0 where
    after : S
    runs : exec bus (spi_exchange budget v) s ≡ some (v % 256, after)
    again : Idle after
    kept : setup after ≡ setup s

  spi_exchange-Exchanges : (v : ℕ) (s : S) → Idle s → LoopsBack (setup s) → Exchanges v s
  unfolding spi_exchange Spi.write
  spi_exchange-Exchanges v s idle loops =
      let t = transfers v s idle loops in
      let full = arrived bus t.rx_polls (sent bus t.tx_polls v s) in
      let word = (bus.get rxdata full).0 in
      record {
        after = (bus.get rxdata full).1;
        runs =
            exec->>= bus (Spi.write budget spi_base v) _ s
              (wait_for_ready bus status 1 _ _ budget s t.tx_fast t.tx_ready)
            ∙ wait_for_ready bus status 2 _ _ budget _ t.rx_fast t.rx_valid
            ∙ ap (λ (x : ℕ). some (x, (bus.get rxdata full).1)) {x = u8 (bit_and word 255)}
                (omega (arith, bit_and_mask 8 word, t.echoes));
        again = t.again;
        kept = t.kept;
      }

  -- On a controller that keeps its configuration while it is idle, and that, when it is enabled, in
  -- loopback, with a chip selected and at divider 1, sends and receives a word within the budget, its
  -- low byte unchanged, and is idle again when the word is read: from every idle state, in whatever
  -- configuration, the example ends, and the two words that it reads are those that it sent.
  pub main-Returns : (s : S) → Idle s → Returns bus (main budget) (0xA5, 0x3C) s
  unfolding main Spi.init Spi.set_cs
  main-Returns s idle =
      let s1 = bus.put (Spi.reg spi_base Spi.Reg.clkdiv) 1 s in
      let s2 = bus.put (Spi.reg spi_base Spi.Reg.ctrl) 17 s1 in
      let s3 = bus.put (Spi.reg spi_base Spi.Reg.cs) 1 s2 in
      let (i1, e1) = put_clkdiv 1 s (omega arith) idle in
      let (i2, e2) = put_ctrl 17 s1 (omega arith) i1 in
      let (i3, e3) = put_cs 1 s2 (omega arith) i2 in
      let configured : setup s3 ≡ record { ctrl = 17; clkdiv = 1; cs = 1 } = rw (e3, e2, e1) refl in
      let loops : LoopsBack (setup s3) =
        rw configured
          (record { enabled = refl; loopback = refl; selected = omega arith; divider = refl }) in
      let one = spi_exchange-Exchanges 0xA5 s3 i3 loops in
      let two = spi_exchange-Exchanges 0x3C one.after one.again (rw one.kept loops) in
      record {
        after = two.after;
        runs =
            exec->>= bus (spi_exchange budget 0xA5) _ s3 one.runs
            ∙ exec->>= bus (spi_exchange budget 0x3C) _ one.after two.runs;
      }
