-- ===== src/DeepCopy.antt =====
-- apis/kpt.dev/v1alpha1/zz_generated.deepcopy.go: the copies of the custom resource, over a memory in
-- which slices can share their arrays.
mod Heap
mod Laws
mod Slices
mod Structs
pub mod Types
pub mod Functions
pub mod Copies
pub mod Independent
pub mod Tests
unfoldable pub use Heap.*
unfoldable pub use Structs.*
unfoldable pub use Slices.*
unfoldable pub use Laws.*
