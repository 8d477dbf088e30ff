-- ===== src/Tests/Windows.antt =====
-- Instances of the theorems on the register windows.
use qar_mvp.Prelude.{arith}
use qar_mvp.Hal.Windows.Defs.{Stays}
use qar_mvp.Hal.Windows.Uart
use qar_mvp.Hal.Windows

run_example : Stays 0x40001000 0x34 (Windows.run 0x40001000 (Windows.uart (Uart.write 3 65)))
run_example =
    Windows.run-Stays 0x40001000 (Windows.uart (Uart.write 3 65)) (omega arith) (omega arith)
