-- ===== src/Bptun.antt =====
-- The IP tunnel over bundles (APP/bptun/src).
pub mod Route
pub mod Add
mod Tests
