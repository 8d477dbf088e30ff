-- ===== src/Examples.antt =====
-- The C examples of devkit/examples: each `main` up to the loop in which it stays. The polling
-- loops take a budget of polls.
pub mod CanLoopback
pub mod GpioIrq
pub mod I2cLoopback
pub mod LinHeader
pub mod SpiLoopback
pub mod TimerPwm
pub mod TimerHal
pub mod Rs485
pub mod Mapped
