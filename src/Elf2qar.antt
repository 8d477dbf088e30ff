-- ===== src/Elf2qar.antt =====
-- devkit/tools/elf2qar: the memory images, the ELF structures, the segment loop and `main`.
pub mod Image
pub mod Elf
pub mod Load
pub mod Program
