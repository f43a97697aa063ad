-- ===== src/Controller/Resources.antt =====
-- The functions of resourcegroup_controller.go on the status of one resource, and on the list of
-- them that makes up the Stalled condition.
pub mod Legacy
pub mod Aggregate
pub mod Ownership
pub mod Shared
use Prim.Native.String.{◌++◌ as append}
use kpt_resource_group.Base.{
  ℕ, suc, Bool, true, false, not, ◌&&◌, Option, none, some, List, [], ◌∷◌, ◌++◌, String,
  if◌then◌else◌, ◌==◌, string_eq, nat_eq,
}
use kpt_resource_group.GoMap.{Map, size}
use kpt_resource_group.Text.{join}
use kpt_resource_group.Api.{
  Time, Condition, ObjMetadata, ResourceStatus, Status, failed, current, not_found, unknown,
  actuation_succeeded, reconcile_succeeded, ownership, ownership_unmatch, ownership_empty,
  true_status, false_status, unknown_status,
}
use kpt_resource_group.ResourceMap.{CachedStatus}
use kpt_resource_group.Status.Fields.{text_at}
use kpt_resource_group.Controller.Conditions.{new_stalled_condition}

-- func ActuationStatusToLegacy
unfoldable pub actuation_status_to_legacy : ResourceStatus → Status
actuation_status_to_legacy s =
    if s.status == not_found
    then not_found
    else if not (s.actuation == "") && not (s.actuation == actuation_succeeded)
    then unknown
    else if s.actuation == actuation_succeeded && s.reconcile == reconcile_succeeded
    then current
    else s.status

abbrev pub overlap_message : String → String
overlap_message inv = append "This resource is owned by another ResourceGroup " (
    append inv (
      append ". The status only reflects the specification for the current object in ResourceGroup "
        (append inv ".")))

abbrev pub no_owner_message : String
no_owner_message =
    append "This object is not owned by any inventory object. "
      "The status for the current object may not reflect the specification for it in current ResourceGroup."

-- func ownershipCondition; nil is `none`.
unfoldable pub ownership_condition : Time → String → String → Option Condition
ownership_condition now id inv =
    if id == inv
    then none
    else some (
        if not (inv == "")
        then record {
          type = ownership;
          status = true_status;
          reason = ownership_unmatch;
          message = overlap_message inv;
          last_transition_time = now;
        }
        else record {
          type = ownership;
          status = unknown_status;
          reason = ownership_empty;
          message = no_owner_message;
          last_transition_time = now;
        })

-- func setResStatus; the conditions are a copy.
unfoldable pub set_res_status : Time → String → ResourceStatus → CachedStatus → ResourceStatus
set_res_status now id res_status cached = record res_status {
  status = cached.status;
  source_hash = cached.source_hash;
  conditions = elim (ownership_condition now id cached.inventory_id) [
    | none ↦ cached.conditions
    | some cond ↦ cached.conditions ++ cond ∷ []
  ];
}

-- fmt.Sprintf("%s/%s/%s/%s", res.Group, res.Kind, res.Namespace, res.Name)
unfoldable pub resource_text : ObjMetadata → String
resource_text res = append res.group_kind.group (
    append "/"
      (append res.group_kind.kind (append "/" (append res.namespace (append "/" res.name)))))

-- The loop of `aggregateResourceStatuses`.
unfoldable pub failed_resources : List ResourceStatus → List String
failed_resources [] = []
failed_resources (s ∷ ss) =
    let rest = failed_resources ss in
    if s.status == failed then resource_text s.obj_metadata ∷ rest else rest

abbrev pub finish_reconciling : String
finish_reconciling = "FinishReconciling"

abbrev pub finish_reconciling_msg : String
finish_reconciling_msg = "finish reconciling"

abbrev pub component_failed : String
component_failed = "ComponentFailed"

abbrev pub component_failed_msg_prefix : String
component_failed_msg_prefix = "The following components failed:"

-- `len(failedResources) > 0`
unfoldable pub stalled_by : Time → List String → Condition
stalled_by now [] = new_stalled_condition now false_status finish_reconciling finish_reconciling_msg
stalled_by now (r ∷ rs) =
    new_stalled_condition now true_status component_failed
      (append component_failed_msg_prefix (join (r ∷ rs) ", "))

-- func aggregateResourceStatuses
unfoldable pub aggregate_resource_statuses : Time → List ResourceStatus → Condition
aggregate_resource_statuses now statuses = stalled_by now (failed_resources statuses)

-- func currentStatusCount
unfoldable pub current_status_count : List ResourceStatus → ℕ
current_status_count [] = 0
current_status_count (s ∷ ss) =
    let rest = current_status_count ss in if s.status == current then suc rest else rest

-- func getInventoryID; `common.InventoryLabel` of cli-utils is the argument `label`.
unfoldable pub inventory_id : String → Map String String → String
inventory_id label labels = if size labels == 0 then "" else text_at labels label
