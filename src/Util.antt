-- ===== src/Util.antt =====
-- util/util.c
pub mod Move
pub mod Compare
pub mod Text
pub mod Decimal
pub mod Swap
mod Tests
