-- ===== src/Api.antt =====
-- apis/kpt.dev/v1alpha1/resourcegroup_types.go: the custom resource, its status and the
-- conversions between resources and subgroups.
mod Keys
mod Types
mod Convert
pub mod Subgroups
unfoldable pub use Keys.*
unfoldable pub use Types.*
unfoldable pub use Convert.*
