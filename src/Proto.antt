-- ===== src/Proto.antt =====
-- src/proto.c, a module for each family of functions.
pub mod Nmdc
pub mod Escape
pub mod Sid
pub mod Adc
pub mod Lock
