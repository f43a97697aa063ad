-- ===== src/Status/Tests.antt =====
-- Libraries in which an object is its own status, and the theorems on ComputeStatus with them.
use kpt_resource_group.Base.{refl, ◌≡◌, some, [], ◌∷◌, String, string_eq}
use kpt_resource_group.Api.{in_progress, Condition, no_condition}
use kpt_resource_group.Text.{has_suffix}
use kpt_resource_group.Status.{
  cached_conditions, compute_status, read_kcc_conditions, is_cnrm_resource, Objects,
}
use kpt_resource_group.Status.Fields.{source_hash_annotation_key}

abbrev not_ready : Condition
not_ready = record no_condition { type = "Ready"; status = "False"; reason = "DependencyNotReady" }

-- A topic of Config Connector that carries one condition.
abbrev pub test_objects : Objects
test_objects = record {
  Object = String;
  Raw = Condition;
  group_version_kind = λ o. record {
    group = "pubsub.cnrm.cloud.google.com";
    version = "v1beta1";
    kind = "PubSubTopic";
  };
  namespace = λ o. "ns";
  name = λ o. "topic";
  resource_version = λ o. "1";
  annotations = λ o. (source_hash_annotation_key, "0123456789") ∷ [];
  compute = λ o. some (
      some (record {
        status = o;
        conditions =
            record { type = "Stalled"; status = "True"; reason = "Broken"; message = "" } ∷ [];
      }));
  nested_conditions = λ o. some (some (not_ready ∷ []));
  marshal = λ raws. some "- type: Ready";
  unmarshal = λ t. some (not_ready ∷ []);
}

-- A topic that is in progress keeps its own condition.
kcc_conditions : (compute_status test_objects 4 in_progress).conditions ≡ not_ready ∷ []
unfolding compute_status cached_conditions read_kcc_conditions is_cnrm_resource has_suffix
kcc_conditions = refl
