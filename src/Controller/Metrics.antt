-- ===== src/Controller/Metrics.antt =====
-- The measurements that the controllers record, as values, and those of the ResourceGroup controller.
pub mod Counts
use kpt_resource_group.Base.{
  ℕ, suc, Bool, List, [], ◌∷◌, String, if◌then◌else◌, ◌==◌, string_eq, length,
}
use kpt_resource_group.KeySet
use kpt_resource_group.KeySet.{KeySet}
use kpt_resource_group.Text.{has_text}
use kpt_resource_group.Api.{NamespacedName, ResourceStatus}
use kpt_resource_group.Controller.Resources.{current_status_count}

pub data Metric : Type 0 where
  pipeline_error : NamespacedName → String → Bool → Metric
  reconcile_duration : String → Metric
  resource_group_total : ℕ → Metric
  ready_resource_count resource_count namespace_count : NamespacedName → ℕ → Metric
  cluster_scoped_resource_count crd_count kcc_resource_count : NamespacedName → ℕ → Metric

-- The variables of the loop in updateResourceMetrics.
pub record Tally : Type 0 where
  pub namespaces : KeySet String
  pub cluster_scoped : ℕ
  pub kcc : ℕ
  pub crds : KeySet String

unfoldable pub tally : Tally → ResourceStatus → Tally
tally t s =
    let res = s.obj_metadata in
    record {
      namespaces = KeySet.add t.namespaces res.namespace;
      cluster_scoped = if res.namespace == "" then suc t.cluster_scoped else t.cluster_scoped;
      kcc = if has_text res.group_kind.group "cnrm.cloud.google.com" then suc t.kcc else t.kcc;
      crds =
          if res.group_kind.kind == "CustomResourceDefinition"
          then KeySet.add t.crds res.name
          else t.crds;
    }

unfoldable pub tally_all : Tally → List ResourceStatus → Tally
tally_all t [] = t
tally_all t (s ∷ ss) = tally_all (tally t s) ss

abbrev pub no_tally : Tally
no_tally = record {
  namespaces = record { entries = [] };
  cluster_scoped = 0;
  kcc = 0;
  crds = record { entries = [] };
}

-- func updateResourceMetrics
unfoldable pub update_resource_metrics : NamespacedName → List ResourceStatus → List Metric
update_resource_metrics nn statuses =
    let t = tally_all no_tally statuses in
    ready_resource_count nn (current_status_count statuses)
    ∷ resource_count nn (length statuses)
    ∷ namespace_count nn (KeySet.length t.namespaces)
    ∷ cluster_scoped_resource_count nn t.cluster_scoped
    ∷ crd_count nn (KeySet.length t.crds)
    ∷ kcc_resource_count nn t.kcc
    ∷ []
