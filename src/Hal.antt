-- ===== src/Hal.antt =====
-- The hardware abstraction layer, devkit/hal: one module for each peripheral's header.
pub mod Interrupts
pub mod Fields
pub mod Order
pub mod Windows
pub mod Transfers
pub mod Gpio
pub mod Uart
pub mod Timer
pub mod Can
pub mod Adc
pub mod I2c
pub mod Spi
