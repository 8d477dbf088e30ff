-- ===== src/Examples/I2cLoopback.antt =====
-- devkit/examples/c/i2c_loopback.c.
use qar_mvp.Prelude.{ℕ, Bool, bit_and, bit_or, ◌==◌, ◌<<<◌}
use qar_mvp.Mmio.{Io, ret, load, store, poll_until, ◌>>=◌, ◌>>◌}
use qar_mvp.Hal.I2c

abbrev pub i2c_base : ℕ
i2c_base = I2c.i2c0_base

abbrev pub ctrl_loopback_ack : ℕ
ctrl_loopback_ack = 1 <<< 4

-- `while (REG & mask) ;`
abbrev pub is_clear : ℕ → ℕ → Bool
is_clear mask v = bit_and v mask == 0

unfoldable pub wait_cmd_clear : ℕ → ℕ → Io (Unit {0})
wait_cmd_clear budget cmd_mask = do
  rounds ← poll_until (is_clear cmd_mask) budget (I2c.reg i2c_base I2c.Reg.cmd)
  ret tt

unfoldable pub wait_idle : ℕ → Io (Unit {0})
wait_idle budget = do
  rounds ←
      poll_until (is_clear (I2c.status_flag I2c.Status.busy)) budget
        (I2c.reg i2c_base I2c.Reg.status)
  ret tt

-- A command, and the wait for it.
unfoldable pub command : ℕ → ℕ → Io (Unit {0})
unfolding I2c.issue_cmd wait_cmd_clear
command budget cmd = do I2c.issue_cmd i2c_base cmd; wait_cmd_clear budget cmd

-- The result is the `status` that the example drops.
unfoldable pub main : ℕ → Io ℕ
unfolding I2c.init I2c.stage_tx command wait_idle
main budget = do
  I2c.init i2c_base 10
  store (I2c.reg i2c_base I2c.Reg.ctrl) (bit_or I2c.ctrl_enable ctrl_loopback_ack)
  I2c.stage_tx i2c_base 0xA0
  I2c.stage_tx i2c_base 0x55
  command budget (I2c.cmd_flag I2c.Cmd.start)
  command budget (I2c.cmd_flag I2c.Cmd.write)
  command budget (I2c.cmd_flag I2c.Cmd.write)
  command budget (I2c.cmd_flag I2c.Cmd.stop)
  wait_idle budget
  load (I2c.reg i2c_base I2c.Reg.status)
