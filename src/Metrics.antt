-- ===== src/Metrics.antt =====
-- ComputeReconcilerNameType of controllers/metrics/record.go. `decimal` is the verb %d of the package
-- fmt.
pub mod Namespaces
pub mod Measures
pub mod Views
pub mod Record
pub mod Viewed
pub mod Tests
use Prim.Native.String.{len, ◌++◌ as append}
use kpt_resource_group.Base.{ℕ, Bool, true, false, String, if◌then◌else◌, ◌==◌, string_eq}
use kpt_resource_group.Api.{NamespacedName}

abbrev pub ns_reconciler_prefix : String
ns_reconciler_prefix = "ns-reconciler"

abbrev pub root_reconciler_prefix : String
root_reconciler_prefix = "root-reconciler"

abbrev pub repo_sync_name : String
repo_sync_name = "repo-sync"

abbrev pub root_sync_name : String
root_sync_name = "root-sync"

abbrev pub cms_namespace : String
cms_namespace = "config-management-system"

-- The constant `namespace` of controllers/metrics/metrics.go.
abbrev pub metrics_namespace : String
metrics_namespace = "resourcegroup"

-- fmt.Sprintf("%s-%s", a, b)
abbrev pub dashed : String → String → String
dashed a b = append a (append "-" b)

-- The name of the reconciler, and the type of its object.
unfoldable pub compute_reconciler_name_type : (ℕ → String) → NamespacedName → String × String
compute_reconciler_name_type decimal nn =
    if nn.namespace == cms_namespace
    then (if nn.name == root_sync_name
        then (root_reconciler_prefix, root_sync_name)
        else (dashed root_reconciler_prefix nn.name, root_sync_name))
    else if nn.name == repo_sync_name
    then (dashed ns_reconciler_prefix metrics_namespace, repo_sync_name)
    else (
      dashed ns_reconciler_prefix
          (dashed metrics_namespace (dashed nn.name (decimal (len nn.name)))),
      repo_sync_name,
    )
