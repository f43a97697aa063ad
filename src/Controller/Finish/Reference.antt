-- ===== src/Controller/Finish/Reference.antt =====
-- The whole status that a reconciliation in time writes, and its measurements, resource by resource.
use std.Path.{fun_ext}
use kpt_resource_group.Base.{ℕ, ◌≡◌, sym, ap, ◌∙◌, some, [], ◌∷◌, String, map}
use kpt_resource_group.GoMap.{Map}
use kpt_resource_group.Api.{
  NamespacedName, GroupKind, GroupVersionKind, ObjMetadata, Time, ResourceGroupSpec,
  ResourceGroupStatus, ResourceStatus, to_obj_metadata, to_group_statuses, false_status,
}
use kpt_resource_group.Api.Subgroups.{subgroup_entry, to_group_statuses_lem}
use kpt_resource_group.ResourceMap.{ResourceMap}
use kpt_resource_group.Status.{Objects}
use kpt_resource_group.Controller.Compute.{
  Fetched, overlay, resource_status_map, compute_resource_list,
}
use kpt_resource_group.Controller.Compute.Reference.{
  reference_status, some_error, compute_resource_list-reference, compute_resource_list-keeps,
}
use kpt_resource_group.Controller.Compute.Legacy.{compute_resource_list_statuses}
use kpt_resource_group.Controller.Metrics.{
  pipeline_error, reconcile_duration, update_resource_metrics,
}
use kpt_resource_group.Controller.Conditions.{new_reconciling_condition}
use kpt_resource_group.Controller.Resources.{
  aggregate_resource_statuses, finish_reconciling, finish_reconciling_msg,
}
use kpt_resource_group.Controller.Finish.{
  Ended, Work, end_reconciling_status, work, raced_status, finished_status, in_time,
}

module _ (objects : Objects) (fetch : GroupVersionKind → NamespacedName → Fetched objects.Object)
    (types : Map GroupKind GroupVersionKind) (now : Time) (id : String) (nn : NamespacedName)
    (spec : ResourceGroupSpec) (status : ResourceGroupStatus) (generation : ℕ)
    (m : ResourceMap) where
  -- The status of a resource by itself, under the actuation fields of the old status.
  abbrev pub entry : ObjMetadata → ResourceStatus
  entry r =
      overlay (resource_status_map status.resource_statuses)
        (reference_status objects fetch types now id m r)

  entry_meta : (r : ObjMetadata) → (entry r).obj_metadata ≡ r
  entry_meta r = head_eq (
      sym (
        ap (map λ s. s.obj_metadata)
          (compute_resource_list-reference objects fetch types now id status.resource_statuses m
            (r ∷ [])).0)
      ∙ (compute_resource_list_statuses objects fetch types now id status.resource_statuses m
          (r ∷ [])).0)
    where
      head_eq : {a b : ObjMetadata} → (a ∷ []) ≡ (b ∷ []) → a ≡ b
      head_eq e = cc

  abbrev worked : Work
  worked = work objects fetch types now id nn spec status generation m

  resources_lem : worked.resources ≡ map entry spec.resources
  unfolding work
  resources_lem =
      (compute_resource_list-reference objects fetch types now id status.resource_statuses m
        spec.resources).0

  subgroups_lem : worked.subgroups ≡ map (subgroup_entry entry) spec.subgroups
  unfolding work
  subgroups_lem =
      let first =
        compute_resource_list objects fetch types now id status.resource_statuses m
          spec.resources in
      ap to_group_statuses (
        (compute_resource_list-reference objects fetch types now id status.resource_statuses
          first.resource_map (to_obj_metadata spec.subgroups)).0
        ∙ ap
            (λ f.
              map (λ r. overlay (resource_status_map status.resource_statuses) (f r))
                (to_obj_metadata spec.subgroups))
            (fun_ext (
              compute_resource_list-keeps objects fetch types now id status.resource_statuses m
                spec.resources)))
      ∙ to_group_statuses_lem entry spec.subgroups entry_meta

  has_err_lem :
      worked.has_err
      ≡ some_error (map (reference_status objects fetch types now id m) spec.resources)
  unfolding work
  has_err_lem =
      (compute_resource_list-reference objects fetch types now id status.resource_statuses m
        spec.resources).1

  abbrev finished : Ended
  finished = end_reconciling_status objects fetch types now id nn spec status generation m in_time

  -- When the goroutine is in time the status has the generation of the spec, and for each resource and each
  -- subgroup of the spec, in their order, what the cache at the call, or else the API server, says of it by
  -- itself, under the overlay of the actuation fields; for a subgroup that is the status and the conditions
  -- of the object of kind ResourceGroup; its conditions and the
  -- measurements are computed from these resources, and the measured pipeline error is whether one of them
  -- is an error before the overlay.
  pub end_reconciling_status_entries :
      (finished.status ≡ record {
        observed_generation = generation;
        resource_statuses = map entry spec.resources;
        subgroup_statuses = map (subgroup_entry entry) spec.subgroups;
        conditions = some (
            new_reconciling_condition now false_status finish_reconciling finish_reconciling_msg
            ∷ aggregate_resource_statuses now (map entry spec.resources)
            ∷ []);
      })
      × (finished.metrics
          ≡ pipeline_error nn "readiness"
              (some_error (map (reference_status objects fetch types now id m) spec.resources))
            ∷ reconcile_duration (aggregate_resource_statuses now (map entry spec.resources)).reason
            ∷ update_resource_metrics nn (map entry spec.resources))
  unfolding end_reconciling_status raced_status finished_status
  end_reconciling_status_entries = (
    (λ i. record {
      observed_generation = generation;
      resource_statuses = resources_lem i;
      subgroup_statuses = subgroups_lem i;
      conditions = some (
          new_reconciling_condition now false_status finish_reconciling finish_reconciling_msg
          ∷ aggregate_resource_statuses now (resources_lem i)
          ∷ []);
    }),
    (λ i.
        pipeline_error nn "readiness" (has_err_lem i)
        ∷ reconcile_duration (aggregate_resource_statuses now (resources_lem i)).reason
        ∷ update_resource_metrics nn (resources_lem i)),
  )
