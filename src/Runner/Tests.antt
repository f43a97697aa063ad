-- ===== src/Runner/Tests.antt =====
-- A start of the process in which the root controller cannot be built, and the theorem on it.
use kpt_resource_group.Base.{Bool, true, false}
use kpt_resource_group.Runner.{Call, builds_root}

abbrev fails : Call → Bool
fails builds_root = true
fails other = false
