-- ===== src/Nodata.antt =====
-- modules/nodata: counters whose data stay away, and the mock items that are sent for them.
pub mod Collector
pub mod Status
pub mod Judge
pub mod Sender
mod Tests
