-- ===== src/Libc.antt =====
-- What the tools use of the C library: printing and reading numbers, lines and files. The models
-- follow the C standard on a host with 64-bit `long` and `size_t` and little-endian words.
pub mod Format
pub mod Scan
pub mod Stream
