-- ===== src/Metrics/Views.antt =====
-- The tag keys of controllers/metrics/tagkeys.go, the views of views.go, and their registration in
-- register.go. The bounds of a distribution are in hundredths of a second.
use kpt_resource_group.Base.{ℕ, List, [], ◌∷◌, String}
use kpt_resource_group.Metrics.Measures.{
  Measure, reconcile_duration_measure, resource_group_total_measure, resource_count_measure,
  ready_resource_count_measure, kcc_resource_count_measure, namespace_count_measure,
  cluster_scoped_resource_count_measure, crd_count_measure, pipeline_error_measure,
}

abbrev pub key_stall_reason : String
key_stall_reason = "stallreason"

abbrev pub key_operation : String
key_operation = "operation"

abbrev pub key_error_code : String
key_error_code = "errorcode"

abbrev pub key_type : String
key_type = "reconciler"

abbrev pub key_resource_group : String
key_resource_group = "resourcegroup"

abbrev pub key_name : String
key_name = "name"

abbrev pub key_component : String
key_component = "component"

abbrev pub resource_key_deployment_name : String
resource_key_deployment_name = "k8s_deployment_name"

pub data Aggregation : Type 0 where
  distribution : List ℕ → Aggregation
  last_value : Aggregation

pub record View : Type 0 where
  pub name : String
  pub measure : Measure
  pub description : String
  pub tag_keys : List String
  pub aggregation : Aggregation

abbrev pub reconcile_duration_view : View
reconcile_duration_view = record {
  name = reconcile_duration_measure.name;
  measure = reconcile_duration_measure;
  description = "The distribution of time taken to reconcile a ResourceGroup CR";
  tag_keys = key_stall_reason ∷ [];
  aggregation = distribution (5 ∷ 10 ∷ 25 ∷ 50 ∷ 100 ∷ 250 ∷ 500 ∷ 1000 ∷ []);
}

abbrev pub resource_group_total_view : View
resource_group_total_view = record {
  name = resource_group_total_measure.name;
  measure = resource_group_total_measure;
  description = "The current number of ResourceGroup CRs";
  tag_keys = [];
  aggregation = last_value;
}

abbrev pub resource_count_view : View
resource_count_view = record {
  name = resource_count_measure.name;
  measure = resource_count_measure;
  description = "The total number of resources tracked by a ResourceGroup";
  tag_keys = key_resource_group ∷ [];
  aggregation = last_value;
}

abbrev pub ready_resource_count_view : View
ready_resource_count_view = record {
  name = ready_resource_count_measure.name;
  measure = ready_resource_count_measure;
  description = "The total number of ready resources in a ResourceGroup";
  tag_keys = key_resource_group ∷ [];
  aggregation = last_value;
}

abbrev pub namespace_count_view : View
namespace_count_view = record {
  name = namespace_count_measure.name;
  measure = namespace_count_measure;
  description = "The number of namespaces used by resources in a ResourceGroup";
  tag_keys = key_resource_group ∷ [];
  aggregation = last_value;
}

abbrev pub cluster_scoped_resource_count_view : View
cluster_scoped_resource_count_view = record {
  name = cluster_scoped_resource_count_measure.name;
  measure = cluster_scoped_resource_count_measure;
  description = "The number of cluster scoped resources in a ResourceGroup";
  tag_keys = key_resource_group ∷ [];
  aggregation = last_value;
}

abbrev pub crd_count_view : View
crd_count_view = record {
  name = crd_count_measure.name;
  measure = crd_count_measure;
  description = "The number of CRDs in a ResourceGroup";
  tag_keys = key_resource_group ∷ [];
  aggregation = last_value;
}

abbrev pub kcc_resource_count_view : View
kcc_resource_count_view = record {
  name = kcc_resource_count_measure.name;
  measure = kcc_resource_count_measure;
  description = "The total number of KCC resources in a ResourceGroup";
  tag_keys = key_resource_group ∷ [];
  aggregation = last_value;
}

abbrev pub pipeline_error_view : View
pipeline_error_view = record {
  name = pipeline_error_measure.name;
  measure = pipeline_error_measure;
  description =
      "A boolean value indicates if error happened from different stages when syncing a commit";
  tag_keys = key_name ∷ key_component ∷ key_type ∷ [];
  aggregation = last_value;
}

-- The views that RegisterReconcilerMetricsViews registers.
abbrev pub registered_views : List View
registered_views =
    reconcile_duration_view ∷ resource_group_total_view ∷ resource_count_view
    ∷ ready_resource_count_view ∷ namespace_count_view ∷ cluster_scoped_resource_count_view
    ∷ crd_count_view ∷ kcc_resource_count_view ∷ pipeline_error_view ∷ []
