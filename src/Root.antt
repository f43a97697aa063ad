-- ===== src/Root.antt =====
-- controllers/root: the controller that keeps the resource map and the watches up to date, and the
-- filter of the updates that it reconciles.
pub mod Predicate
pub mod GroupKinds
pub mod Sources
pub mod Reconcile
pub mod Tests
