-- ===== src/Metrics/Record.antt =====
-- The functions of controllers/metrics/record.go, which take a measurement with its tags. `text_of` is
-- the text of a namespaced name, as the library prints it. A tag whose value OpenCensus would not take is
-- not modelled.
use kpt_resource_group.Base.{ℕ, ◌-◌, Bool, List, [], ◌∷◌, String, if◌then◌else◌}
use kpt_resource_group.Api.{NamespacedName, Time}
use kpt_resource_group.Controller.Metrics.{
  Metric, pipeline_error, reconcile_duration, resource_group_total, ready_resource_count,
  resource_count, namespace_count, cluster_scoped_resource_count, crd_count, kcc_resource_count,
}
use kpt_resource_group.Metrics.{compute_reconciler_name_type}
use kpt_resource_group.Metrics.Measures
use kpt_resource_group.Metrics.Measures.{Measure}
use kpt_resource_group.Metrics.Views.{
  key_stall_reason, key_resource_group, key_component, key_name, key_type,
}

-- A number, or a time in nanoseconds of which the seconds are measured.
pub data Value : Type 0 where
  int : ℕ → Value
  seconds_of : ℕ → Value

pub record Measurement : Type 0 where
  pub measure : Measure
  pub value : Value
  pub tags : List (String × String)

-- func RecordReconcileDuration
unfoldable pub record_reconcile_duration : Time → String → Time → Measurement
record_reconcile_duration now stall_status start = record {
  measure = Measures.reconcile_duration_measure;
  value = seconds_of (now - start);
  tags = (key_stall_reason, stall_status) ∷ [];
}

-- func RecordResourceGroupTotal
unfoldable pub record_resource_group_total : ℕ → Measurement
record_resource_group_total count = record {
  measure = Measures.resource_group_total_measure;
  value = int count;
  tags = [];
}

module _ (text_of : NamespacedName → String) where
  abbrev of_group : Measure → NamespacedName → ℕ → Measurement
  of_group measure nn count = record {
    measure = measure;
    value = int count;
    tags = (key_resource_group, text_of nn) ∷ [];
  }

  -- func RecordReadyResourceCount
  unfoldable pub record_ready_resource_count : NamespacedName → ℕ → Measurement
  record_ready_resource_count = of_group Measures.ready_resource_count_measure

  -- func RecordKCCResourceCount
  unfoldable pub record_kcc_resource_count : NamespacedName → ℕ → Measurement
  record_kcc_resource_count = of_group Measures.kcc_resource_count_measure

  -- func RecordResourceCount
  unfoldable pub record_resource_count : NamespacedName → ℕ → Measurement
  record_resource_count = of_group Measures.resource_count_measure

  -- func RecordNamespaceCount
  unfoldable pub record_namespace_count : NamespacedName → ℕ → Measurement
  record_namespace_count = of_group Measures.namespace_count_measure

  -- func RecordClusterScopedResourceCount
  unfoldable pub record_cluster_scoped_resource_count : NamespacedName → ℕ → Measurement
  record_cluster_scoped_resource_count = of_group Measures.cluster_scoped_resource_count_measure

  -- func RecordCRDCount
  unfoldable pub record_crd_count : NamespacedName → ℕ → Measurement
  record_crd_count = of_group Measures.crd_count_measure

-- func RecordPipelineError
unfoldable pub record_pipeline_error : (ℕ → String) → NamespacedName → String → Bool → Measurement
record_pipeline_error decimal nn component has_err =
    let (name, type) = compute_reconciler_name_type decimal nn in
    record {
      measure = Measures.pipeline_error_measure;
      value = int (if has_err then 1 else 0);
      tags = (key_component, component) ∷ (key_name, name) ∷ (key_type, type) ∷ [];
    }

-- The measurement that a call makes, for a reconciliation that started and ended at the given times.
unfoldable pub measurement_of :
    (ℕ → String) → (NamespacedName → String) → Time → Time → Metric → Measurement
measurement_of decimal text_of start now (pipeline_error nn component has_err) =
    record_pipeline_error decimal nn component has_err
measurement_of decimal text_of start now (reconcile_duration reason) =
    record_reconcile_duration now reason start
measurement_of decimal text_of start now (resource_group_total n) = record_resource_group_total n
measurement_of decimal text_of start now (ready_resource_count nn n) =
    record_ready_resource_count text_of nn n
measurement_of decimal text_of start now (resource_count nn n) = record_resource_count text_of nn n
measurement_of decimal text_of start now (namespace_count nn n) =
    record_namespace_count text_of nn n
measurement_of decimal text_of start now (cluster_scoped_resource_count nn n) =
    record_cluster_scoped_resource_count text_of nn n
measurement_of decimal text_of start now (crd_count nn n) = record_crd_count text_of nn n
measurement_of decimal text_of start now (kcc_resource_count nn n) =
    record_kcc_resource_count text_of nn n
