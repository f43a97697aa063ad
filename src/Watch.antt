-- ===== src/Watch.antt =====
-- controllers/watch: which types of the cluster are watched, and what an event of a watch does.
pub mod Manager
pub mod Filtered
pub mod Creation
pub mod Fleet
pub mod Tests
