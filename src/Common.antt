-- ===== src/Common.antt =====
-- common/: the records and the helpers that the modules share.
pub mod Model
pub mod Tags
mod Tests
