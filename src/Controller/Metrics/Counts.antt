-- ===== src/Controller/Metrics/Counts.antt =====
-- What the measurements of updateResourceMetrics count.
use kpt_resource_group.Base.{
  ℕ, suc, ◌+◌, ◌≡◌, refl, ◌∙◌, ap, Bool, List, [], ◌∷◌, map, String, arith, if◌then◌else◌, ◌==◌,
  string_eq, length,
}
use kpt_resource_group.KeySet
use kpt_resource_group.KeySet.{KeySet}
use kpt_resource_group.KeySet.Size.{distinct_count, length-new_set_count}
use kpt_resource_group.Text.{has_text}
use kpt_resource_group.Api.{NamespacedName, ResourceStatus, current}
use kpt_resource_group.Controller.Resources.{current_status_count}
use kpt_resource_group.Controller.Metrics.{
  Tally, tally, tally_all, no_tally, update_resource_metrics, ready_resource_count, resource_count,
  namespace_count, cluster_scoped_resource_count, crd_count, kcc_resource_count,
}

-- how many statuses pass a test, and which
unfoldable pub count : (ResourceStatus → Bool) → List ResourceStatus → ℕ
count p [] = 0
count p (s ∷ ss) = let rest = count p ss in if p s then suc rest else rest

unfoldable pub filter : (ResourceStatus → Bool) → List ResourceStatus → List ResourceStatus
filter p [] = []
filter p (s ∷ ss) = let rest = filter p ss in if p s then s ∷ rest else rest

abbrev pub namespace_of : ResourceStatus → String
namespace_of s = s.obj_metadata.namespace

abbrev pub name_of : ResourceStatus → String
name_of s = s.obj_metadata.name

abbrev pub is_current : ResourceStatus → Bool
is_current s = s.status == current

abbrev pub is_cluster_scoped : ResourceStatus → Bool
is_cluster_scoped s = s.obj_metadata.namespace == ""

abbrev pub is_kcc : ResourceStatus → Bool
is_kcc s = has_text s.obj_metadata.group_kind.group "cnrm.cloud.google.com"

abbrev pub is_crd : ResourceStatus → Bool
is_crd s = s.obj_metadata.group_kind.kind == "CustomResourceDefinition"

current_status_count-eq : (ss : List ResourceStatus) → current_status_count ss ≡ count is_current ss
unfolding current_status_count count
current_status_count-eq [] = refl
current_status_count-eq (s ∷ ss) = ground (arith, current_status_count-eq ss)

-- the loop, one variable at a time
tally_all-namespaces :
    (ss : List ResourceStatus) (t : Tally)
    → (tally_all t ss).namespaces ≡ KeySet.add_all t.namespaces (map namespace_of ss)
unfolding tally_all tally KeySet.add_all
tally_all-namespaces [] t = refl
tally_all-namespaces (s ∷ ss) t = tally_all-namespaces ss (tally t s)

tally_all-counts :
    (ss : List ResourceStatus) (t : Tally)
    → ((tally_all t ss).cluster_scoped ≡ t.cluster_scoped + count is_cluster_scoped ss)
      × ((tally_all t ss).kcc ≡ t.kcc + count is_kcc ss)
unfolding tally_all tally count
tally_all-counts [] t = ground arith
tally_all-counts (s ∷ ss) t = ground (arith, tally_all-counts ss (tally t s))

tally_all-crds :
    (ss : List ResourceStatus) (t : Tally)
    → (tally_all t ss).crds ≡ KeySet.add_all t.crds (map name_of (filter is_crd ss))
unfolding tally_all tally KeySet.add_all filter
tally_all-crds [] t = refl
tally_all-crds (s ∷ ss) t = ground (arith, tally_all-crds ss (tally t s))

-- updateResourceMetrics measures, for its group, how many resources are Current, how many there are, how
-- many different namespaces they have, where the empty one of a cluster-scoped resource counts too, how
-- many have no namespace, how many different definitions of custom resources are among them, and how many
-- have a group with the suffix of Config Connector somewhere in it.
pub update_resource_metrics_lem :
    (nn : NamespacedName) (ss : List ResourceStatus)
    → update_resource_metrics nn ss
      ≡ ready_resource_count nn (count is_current ss)
        ∷ resource_count nn (length ss)
        ∷ namespace_count nn (distinct_count (map namespace_of ss))
        ∷ cluster_scoped_resource_count nn (count is_cluster_scoped ss)
        ∷ crd_count nn (distinct_count (map name_of (filter is_crd ss)))
        ∷ kcc_resource_count nn (count is_kcc ss)
        ∷ []
unfolding update_resource_metrics
update_resource_metrics_lem nn ss = rw (
  current_status_count-eq ss,
  ap KeySet.length (tally_all-namespaces ss no_tally) ∙ length-new_set_count (map namespace_of ss),
  tally_all-cluster,
  ap KeySet.length (tally_all-crds ss no_tally)
      ∙ length-new_set_count (map name_of (filter is_crd ss)),
  tally_all-kcc,
)
  where
    tally_all-cluster : (tally_all no_tally ss).cluster_scoped ≡ count is_cluster_scoped ss
    tally_all-cluster = omega (arith, (tally_all-counts ss no_tally).0)

    tally_all-kcc : (tally_all no_tally ss).kcc ≡ count is_kcc ss
    tally_all-kcc = omega (arith, (tally_all-counts ss no_tally).1)
