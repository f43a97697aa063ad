-- ===== src/Metrics/Measures.antt =====
-- controllers/metrics/metrics.go: the measures. A unit is the text that OpenCensus gives it.
use kpt_resource_group.Base.{String}

-- A measure of integers or of floating-point numbers.
pub data Number : Type 0 where
  int64 float64 : Number

pub record Measure : Type 0 where
  pub number : Number
  pub name : String
  pub description : String
  pub unit : String

abbrev pub reconcile_duration_measure : Measure
reconcile_duration_measure = record {
  number = float64;
  name = "rg_reconcile_duration_seconds";
  description =
      "Time duration in seconds of reconciling a ResourceGroup CR by the ResourceGroup controller";
  unit = "s";
}

abbrev pub resource_group_total_measure : Measure
resource_group_total_measure = record {
  number = int64;
  name = "resource_group_total";
  description = "Total number of ResourceGroup CRs in a cluster";
  unit = "1";
}

abbrev pub resource_count_measure : Measure
resource_count_measure = record {
  number = int64;
  name = "resource_count";
  description = "The number of resources in a ResourceGroup CR";
  unit = "1";
}

abbrev pub ready_resource_count_measure : Measure
ready_resource_count_measure = record {
  number = int64;
  name = "ready_resource_count";
  description = "The number of resources with Current status in a ResourceGroup CR";
  unit = "1";
}

abbrev pub kcc_resource_count_measure : Measure
kcc_resource_count_measure = record {
  number = int64;
  name = "kcc_resource_count";
  description = "The number of KCC resources in a ResourceGroup CR";
  unit = "1";
}

abbrev pub namespace_count_measure : Measure
namespace_count_measure = record {
  number = int64;
  name = "resource_ns_count";
  description = "The number of resource namespaces in a ResourceGroup CR";
  unit = "1";
}

abbrev pub cluster_scoped_resource_count_measure : Measure
cluster_scoped_resource_count_measure = record {
  number = int64;
  name = "cluster_scoped_resource_count";
  description = "The number of cluster-scoped resources in a ResourceGroup CR";
  unit = "1";
}

abbrev pub crd_count_measure : Measure
crd_count_measure = record {
  number = int64;
  name = "crd_count";
  description = "The number of CRDs in a ResourceGroup CR";
  unit = "1";
}

abbrev pub pipeline_error_measure : Measure
pipeline_error_measure = record {
  number = int64;
  name = "pipeline_error_observed";
  description =
      "A boolean value indicates if error happened at readiness stage when syncing a commit";
  unit = "1";
}
