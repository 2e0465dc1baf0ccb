-- ===== src/Alarm.antt =====
-- modules/alarm: events are turned into messages for the members of the teams.
pub mod Outbox
pub mod Users
pub mod Content
pub mod Combine
pub mod Consume
mod Tests
