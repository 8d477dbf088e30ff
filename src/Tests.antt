-- ===== src/Tests.antt =====
-- Runs of the model on concrete inputs, and an instance of each theorem that has hypotheses.
mod Ram
mod Hal
mod Windows
mod Tools
mod Programs
mod Examples
mod Rtl
mod Spi
