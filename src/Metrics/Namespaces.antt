-- ===== src/Metrics/Namespaces.antt =====
-- What the name of a reconciler tells apart.
use kpt_resource_group.Base.{ℕ, ◌≡◌, ◌≢◌, String, arith, if◌then◌else◌, ◌==◌, string_eq}
use kpt_resource_group.Api.{NamespacedName}
use kpt_resource_group.Metrics.{
  compute_reconciler_name_type, cms_namespace, root_sync_name, repo_sync_name,
}

-- Outside the namespace of the root reconcilers, objects of one name in two namespaces have the same
-- reconciler name and type.
pub reconciler_name_shared :
    (decimal : ℕ → String) (a b : NamespacedName)
    → a.namespace ≢ cms_namespace
    → b.namespace ≢ cms_namespace
    → a.name ≡ b.name
    → compute_reconciler_name_type decimal a ≡ compute_reconciler_name_type decimal b
unfolding compute_reconciler_name_type
reconciler_name_shared decimal a b h k e = ground (
  arith,
  string_eq.equals_iff a.namespace cms_namespace,
  string_eq.equals_iff b.namespace cms_namespace,
  e,
)

-- The type is that of a root reconciler just in the namespace of the root reconcilers.
pub reconciler_type_lem :
    (decimal : ℕ → String) (nn : NamespacedName)
    → (compute_reconciler_name_type decimal nn).1
      ≡ (if nn.namespace == cms_namespace then root_sync_name else repo_sync_name)
unfolding compute_reconciler_name_type
reconciler_type_lem decimal nn = ground arith
