-- ===== src/Examples/CanLoopback/Laws.antt =====
-- devkit/examples/c/can_loopback.c: when it reads, and in which state it sends its last frame.
use qar_mvp.Prelude.{ℕ, ◌≡◌, suc, refl, ◌∙◌, none, some, bit_at, arith, ◌⊎◌, inl, inr}
use qar_mvp.Mmio.{Io, Bus, exec, exec->>=, exec->>=_hung, poll_until}
use qar_mvp.Mmio.Device.{Device}
use qar_mvp.Mmio.Until.{after_reads, NeverDone, poll_until-Polls}
use qar_mvp.Hal.Can
use qar_mvp.Examples.CanLoopback.{
  can_base, send_frame, drain_rx, two_pending, set_up, go_quiet, main,
}

module _ {S : Type 0} (bus : Bus S) (width : ℕ → ℕ) (dev : Device bus width) where
  open dev use {peek, peek-put_self, peek-put_ne}

  -- The last frame is commanded from a state in which the control register holds 14: loopback,
  -- listen-only and filter bypass, but not the enable bit.
  pub record SendsDisabled {A : Type 0} (io : Io A) (s : S) : Type 0 where
    pub before : S
    pub result : A
    pub runs : exec bus io s ≡ some (result, bus.put (Can.reg can_base Can.Reg.tx_cmd) 1 before)
    pub ctrl : peek (Can.reg can_base Can.Reg.ctrl) before ≡ 14
    pub disabled : bit_at (peek (Can.reg can_base Can.Reg.ctrl) before) 0 ≡ 0

  -- What is written to the transmit registers leaves the control register alone.
  ctrl-kept :
      (id dlc data0 data1 : ℕ) (s : S)
      → width (Can.reg can_base Can.Reg.ctrl) ≡ 32
      → peek (Can.reg can_base Can.Reg.ctrl) (
          bus.put (Can.reg can_base Can.Reg.tx_data1) data1 (
            bus.put (Can.reg can_base Can.Reg.tx_data0) data0 (
              bus.put (Can.reg can_base Can.Reg.tx_dlc) dlc (
                bus.put
                  (Can.reg can_base Can.Reg.tx_id)
                  id
                  (bus.put (Can.reg can_base Can.Reg.ctrl) 14 s)))))
        ≡ 14
  ctrl-kept id dlc data0 data1 s w =
      peek-put_ne _ _ _ _ (omega (arith, w)) (omega arith)
      ∙ peek-put_ne _ _ _ _ (omega (arith, w)) (omega arith)
      ∙ peek-put_ne _ _ _ _ (omega (arith, w)) (omega arith)
      ∙ peek-put_ne _ _ _ _ (omega (arith, w)) (omega arith)
      ∙ peek-put_self _ _ _ (omega (arith, w)) (rw w (omega arith))

  go_quiet-SendsDisabled :
      (s : S) → width (Can.reg can_base Can.Reg.ctrl) ≡ 32 → SendsDisabled go_quiet s
  unfolding go_quiet drain_rx send_frame Can.read_payload Can.pop_rx Can.set_ctrl Can.send_word
  go_quiet-SendsDisabled s w = record {
    before = _;
    result = tt;
    runs = refl;
    ctrl = ctrl-kept _ _ _ _ _ w;
    disabled = rw (ctrl-kept _ _ _ _ _ w) refl;
  }

  -- The hardware once the example has set up the controller and sent its first two frames.
  abbrev pub started : S → S
  unfolding set_up Can.init Can.enable_irq send_frame Can.send_word
  started s = elim (exec bus set_up s) [ none ↦ s | some r ↦ r.1 ]

  -- It polls without end, or sends its last frame.
  abbrev pub Outcome : ℕ → S → Type 0
  Outcome budget s =
      NeverDone bus (Can.reg can_base Can.Reg.rx_fifo) two_pending budget (started s)
        × (exec bus (main budget) s ≡ none)
      ⊎ SendsDisabled (main budget) s

  -- On a device whose CAN control register has 32 bits: the example is still polling when its budget
  -- is used up, or it ends with the command of the last frame, given while the controller is disabled.
  pub main-Outcome :
      (budget : ℕ) (s : S) → width (Can.reg can_base Can.Reg.ctrl) ≡ 32 → Outcome budget s
  unfolding main set_up Can.init Can.enable_irq send_frame Can.send_word
  main-Outcome budget s w =
      elim (poll_until-Polls bus (Can.reg can_base Can.Reg.rx_fifo) two_pending budget
        (started s)) [
          | inl (n, below, up, runs) ↦
              let t =
                after_reads bus (Can.reg can_base Can.Reg.rx_fifo) two_pending (suc n)
                  (started s) in
              let quiet = go_quiet-SendsDisabled t w in
              inr (record {
                before = quiet.before;
                result = quiet.result;
                runs =
                    exec->>= bus (poll_until two_pending budget _) (λ rounds. go_quiet) (started s)
                      runs
                    ∙ quiet.runs;
                ctrl = quiet.ctrl;
                disabled = quiet.disabled;
              })
          | inr (busy, runs) ↦ inl (
            busy,
            exec->>=_hung bus (poll_until two_pending budget _) (λ rounds. go_quiet) (started s)
                runs,
          )
        ]
