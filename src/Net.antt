-- ===== src/Net.antt =====
-- The wire format of the engine: parts with their length behind them, and frames with their length
-- before them.
pub mod Varint
pub mod MultiPart
pub mod Frame
pub mod BackPressure
mod Tests
