-- ===== src/Printf.antt =====
-- misc/vsnprintf.c: formatted output.
pub mod Decimal
pub mod Output
pub mod Number
pub mod Pointer
pub mod Format
pub mod Convert
pub mod Plain
pub mod Mac
pub mod Texts
