-- ===== src/Controller/Finish.antt =====
-- startReconcilingStatus and endReconcilingStatus of resourcegroup_controller.go. A goroutine
-- computes the statuses and writes them into the same variable that the timeout branch writes to,
-- so how far it is when the function returns is an argument. The goroutine is never cancelled: the
-- resource map here is the one that it leaves in the end.
pub mod Status
pub mod Races
pub mod Reference
use kpt_resource_group.Base.{
  ℕ, Bool, true, false, Option, none, some, List, [], ◌∷◌, ◌++◌, String, if◌then◌else◌,
}
use kpt_resource_group.GoMap.{Map}
use kpt_resource_group.Api.{
  NamespacedName, GroupKind, GroupVersionKind, Time, Condition, ResourceGroupSpec,
  ResourceGroupStatus, ResourceStatus, GroupStatus, to_obj_metadata, to_group_statuses, true_status,
  false_status,
}
use kpt_resource_group.ResourceMap.{ResourceMap}
use kpt_resource_group.Status.{Objects}
use kpt_resource_group.Controller.Conditions.{new_reconciling_condition, new_stalled_condition}
use kpt_resource_group.Controller.Resources.{
  aggregate_resource_statuses, finish_reconciling, finish_reconciling_msg,
}
use kpt_resource_group.Controller.Compute.{Fetched, Computed, compute_resource_list}
use kpt_resource_group.Controller.Metrics.{
  Metric, pipeline_error, reconcile_duration, update_resource_metrics,
}

abbrev pub exceed_timeout : String
exceed_timeout = "ExceedTimeout"

abbrev pub exceed_timeout_msg : String
exceed_timeout_msg =
    "Exceed timeout, the .status.observedGeneration and .status.resourceStatuses fields are old."

unfoldable pub start_reconciling_status : Time → ResourceGroupStatus → ResourceGroupStatus
start_reconciling_status now status = record {
  observed_generation = status.observed_generation;
  resource_statuses = status.resource_statuses;
  subgroup_statuses = status.subgroup_statuses;
  conditions = some (
      new_reconciling_condition now true_status "StartReconciling" "start reconciling"
      ∷ new_stalled_condition now false_status "" ""
      ∷ []);
}

-- Which case of the `select` runs, and in the second which of the two fields that the goroutine writes
-- it writes after that case has written them: none, one of them, or both.
pub data Race : Type 0 where
  in_time timed_out late_resources late_subgroups late_both : Race

-- What the goroutine computes.
pub record Work : Type 0 where
  pub resources : List ResourceStatus
  pub subgroups : List GroupStatus
  pub resource_map : ResourceMap
  pub has_err : Bool

pub record Ended : Type 0 where
  pub status : ResourceGroupStatus
  pub resource_map : ResourceMap
  pub metrics : List Metric

-- The case `<-finish`.
unfoldable pub finished_status : Time → ℕ → Work → ResourceGroupStatus
finished_status now generation work = record {
  observed_generation = generation;
  resource_statuses = work.resources;
  subgroup_statuses = work.subgroups;
  conditions = some (
      new_reconciling_condition now false_status finish_reconciling finish_reconciling_msg
      ∷ aggregate_resource_statuses now work.resources
      ∷ []);
}

-- The case `<-time.After(reconcileTimeout)`.
unfoldable pub timed_out_status : Time → ResourceGroupStatus → ResourceGroupStatus
timed_out_status now status = record status {
  conditions = some (
      new_reconciling_condition now false_status exceed_timeout exceed_timeout_msg
      ∷ new_stalled_condition now true_status exceed_timeout exceed_timeout_msg
      ∷ []);
}

unfoldable pub raced_status : Time → ℕ → ResourceGroupStatus → Work → Race → ResourceGroupStatus
raced_status now generation status work in_time = finished_status now generation work
raced_status now generation status work timed_out = timed_out_status now status
raced_status now generation status work late_resources = record (timed_out_status now status) {
  resource_statuses = work.resources;
}
raced_status now generation status work late_subgroups = record (timed_out_status now status) {
  subgroup_statuses = work.subgroups;
}
raced_status now generation status work late_both = record (timed_out_status now status) {
  resource_statuses = work.resources;
  subgroup_statuses = work.subgroups;
}

-- newStatus.Conditions[1].Reason
abbrev stall_reason : ResourceGroupStatus → String
stall_reason s = elim s.conditions [ some (c ∷ d ∷ cs) ↦ d.reason | _ ↦ "" ]

module _ (objects : Objects) (fetch : GroupVersionKind → NamespacedName → Fetched objects.Object)
    (types : Map GroupKind GroupVersionKind) (now : Time) (id : String) (nn : NamespacedName)
    (spec : ResourceGroupSpec) (status : ResourceGroupStatus) (generation : ℕ)
    (m : ResourceMap) where
  -- The body of the goroutine: computeResourceStatuses, then computeSubGroupStatuses.
  unfoldable pub work : Work
  work =
      let first =
        compute_resource_list objects fetch types now id status.resource_statuses m
          spec.resources in
      let second =
        compute_resource_list objects fetch types now id status.resource_statuses first.resource_map
          (to_obj_metadata spec.subgroups) in
      record {
        resources = first.statuses;
        subgroups = to_group_statuses second.statuses;
        resource_map = second.resource_map;
        has_err = first.has_err;
      }

  unfoldable pub end_reconciling_status : Race → Ended
  end_reconciling_status race =
      let new = raced_status now generation status work race in
      record {
        status = new;
        resource_map = work.resource_map;
        metrics =
            pipeline_error nn "readiness" work.has_err
            ∷ reconcile_duration (stall_reason new)
            ∷ update_resource_metrics nn new.resource_statuses;
      }
