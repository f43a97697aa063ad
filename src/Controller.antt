-- ===== src/Controller.antt =====
-- controllers/resourcegroup: the controller that writes the status of a ResourceGroup.
pub mod Conditions
pub mod Resources
pub mod Compute
pub mod Metrics
pub mod Timeout
pub mod Update
pub mod Finish
pub mod Reconcile
pub mod Fixtures
pub mod Tests
