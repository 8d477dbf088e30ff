-- ===== src/Qhex.antt =====
-- devkit/tools/qhex/main.c: reads a hex image, counts its words, and writes it as a binary.
pub mod Buffer
pub mod Reader
pub mod Binary
pub mod Program
