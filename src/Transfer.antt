-- ===== src/Transfer.antt =====
-- modules/transfer: received metrics are checked, and turned into the items of judge, graph and tsdb.
pub mod Receive
pub mod Checked
pub mod Convert
pub mod Aligned
mod Tests
