-- ===== src/Handler.antt =====
-- controllers/handler: what puts requests for ResourceGroups into the work queue.
pub mod Events
pub mod Throttler
pub mod Tests
