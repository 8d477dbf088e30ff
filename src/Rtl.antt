-- ===== src/Rtl.antt =====
-- Peripherals of qar-core/rtl.
pub mod Can
pub mod Gpio
pub mod Timer
