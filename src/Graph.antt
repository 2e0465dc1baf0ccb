-- ===== src/Graph.antt =====
-- modules/graph: the cache of the items that are not on disk yet.
pub mod LinkedList
pub mod Store
pub mod History
mod Tests
pub mod Keys
pub mod Index
pub mod Api
pub mod Query
