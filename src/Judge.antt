-- ===== src/Judge.antt =====
-- modules/judge: the component that decides when a metric raises an alarm.
pub mod LinkedList
pub mod Function
pub mod Parse
pub mod Alarm
pub mod Match
pub mod Sync
pub mod Store
mod Tests
