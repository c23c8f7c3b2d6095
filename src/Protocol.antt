-- ===== src/Protocol.antt =====
-- The two ends of the line protocol together.
pub mod UserList
mod Tests
pub mod Broadcast
pub mod Registration
