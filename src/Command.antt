-- ===== src/Command.antt =====
-- init/command.c
pub mod Scan
pub mod Words
pub mod Args
pub mod Builtins
pub mod Spawn
pub mod Listing
pub mod Dispatch
pub mod Frame
pub mod Documented
mod Tests
