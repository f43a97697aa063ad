-- ===== src/Status.antt =====
-- controllers/status/status.go: the status that is cached for one object of the cluster. The object,
-- kstatus and the YAML round trip are libraries: they come as the record `Objects`. A text that is
-- only logged is left out, and so is an error's text.
pub mod Fields
pub mod Laws
pub mod Tests
use kpt_resource_group.Base.{
  ℕ, Bool, true, false, not, ◌&&◌, Option, none, some, List, [], ◌∷◌, map, String, if◌then◌else◌,
  ◌==◌, string_eq, ◌>>=◌,
}
use kpt_resource_group.GoMap.{Map}
use kpt_resource_group.Text.{has_suffix}
use kpt_resource_group.Api.{GroupVersionKind, Status, Condition, Time, failed, current, unknown}
use kpt_resource_group.ResourceMap.{CachedStatus}
use Fields.{source_hash, owning_inventory}

-- kstatus.Condition
pub record KstatusCondition : Type 0 where
  pub type : String
  pub status : String
  pub reason : String
  pub message : String

-- kstatus.Result
pub record KstatusResult : Type 0 where
  pub status : String
  pub conditions : List KstatusCondition

-- What the code reads of an `unstructured.Unstructured`, and what the libraries compute from it.
-- An outer `none` is an error.
pub record Objects : Type 1 where
  pub Object : Type 0
  pub Raw : Type 0
  pub group_version_kind : Object → GroupVersionKind
  pub namespace : Object → String
  pub name : Object → String
  pub resource_version : Object → String
  pub annotations : Object → Map String String
  -- kstatus.Compute, whose result may be nil
  pub compute : Object → Option (Option KstatusResult)
  -- unstructured.NestedSlice of .status.conditions, which may be absent
  pub nested_conditions : Object → Option (Option (List Raw))
  -- yaml.Marshal, and yaml.Unmarshal into conditions
  pub marshal : List Raw → Option String
  pub unmarshal : String → Option (List Condition)

-- func convertKstatusCondition
unfoldable pub convert_kstatus_condition : Time → KstatusCondition → Condition
convert_kstatus_condition now c = record {
  type = c.type;
  status = c.status;
  reason = c.reason;
  message = c.message;
  last_transition_time = now;
}

-- func ConvertKstatusConditions
unfoldable pub convert_kstatus_conditions : Time → List KstatusCondition → List Condition
convert_kstatus_conditions now = map (convert_kstatus_condition now)

-- func IsCNRMResource
unfoldable pub is_cnrm_resource : String → Bool
is_cnrm_resource group = has_suffix group "cnrm.cloud.google.com"

-- CachedStatus{}
abbrev pub no_cached_status : CachedStatus
no_cached_status = record { status = ""; conditions = []; source_hash = ""; inventory_id = "" }

module _ (objects : Objects) where
  open objects use {
    Object, group_version_kind, annotations, compute, nested_conditions, marshal, unmarshal,
  }

  -- func ReadKCCResourceConditions
  unfoldable pub read_kcc_conditions : Object → Option (List Condition)
  read_kcc_conditions obj = do
    found ← nested_conditions obj
    conditions ← found
    data' ← marshal conditions
    unmarshal data'

  -- The conditions that `ComputeStatus` stores beside the status.
  unfoldable pub cached_conditions : Time → Object → KstatusResult → List Condition
  cached_conditions now obj result =
      if result.status == failed
      then convert_kstatus_conditions now result.conditions
      else if is_cnrm_resource (group_version_kind obj).group && not (result.status == current)
      then elim (read_kcc_conditions obj) [
        | none ↦ convert_kstatus_conditions now result.conditions
        | some conditions ↦ conditions
      ]
      else []

  -- func ComputeStatus
  unfoldable pub compute_status : Time → Object → CachedStatus
  compute_status now obj = elim (compute obj) [
    | none ↦ record no_cached_status { status = unknown }
    | some none ↦ record no_cached_status { status = unknown }
    | some (some result) ↦ record {
      status = result.status;
      conditions = cached_conditions now obj result;
      source_hash = source_hash (annotations obj);
      inventory_id = owning_inventory (annotations obj);
    }
  ]
