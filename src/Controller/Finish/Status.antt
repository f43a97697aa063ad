-- ===== src/Controller/Finish/Status.antt =====
-- The status that a finished reconciliation writes.
use kpt_resource_group.Base.{ℕ, ◌≡◌, refl, List, [], ◌∷◌, String, map, arith, string_eq}
use kpt_resource_group.GoMap.{Map}
use kpt_resource_group.Api.{
  NamespacedName, GroupKind, GroupVersionKind, Time, ResourceGroupSpec, GroupMetadata,
  ResourceGroupStatus, ResourceStatus, to_obj_metadata, to_group_statuses,
}
use kpt_resource_group.ResourceMap.{ResourceMap}
use kpt_resource_group.Status.{Objects}
use kpt_resource_group.Controller.Compute.{Fetched}
use kpt_resource_group.Controller.Compute.Legacy.{AreSettled, compute_resource_list_statuses}
use kpt_resource_group.Controller.Finish.{
  end_reconciling_status, work, raced_status, finished_status, Race, in_time,
}

to_group_statuses_metas :
    (ss : List ResourceStatus) (gs : List GroupMetadata)
    → map (λ s. s.obj_metadata) ss ≡ to_obj_metadata gs
    → map (λ s. s.group_metadata) (to_group_statuses ss) ≡ gs
unfolding to_group_statuses to_obj_metadata
to_group_statuses_metas [] [] h = refl
to_group_statuses_metas [] (g ∷ gs) h = cc
to_group_statuses_metas (s ∷ ss) [] h = cc
to_group_statuses_metas (s ∷ ss) (g ∷ gs) h = ground (arith, to_group_statuses_metas ss gs)

module _ (objects : Objects) (fetch : GroupVersionKind → NamespacedName → Fetched objects.Object)
    (types : Map GroupKind GroupVersionKind) (now : Time) (id : String) (nn : NamespacedName)
    (spec : ResourceGroupSpec) (status : ResourceGroupStatus) (generation : ℕ)
    (m : ResourceMap) where
  abbrev ended : Race → ResourceGroupStatus
  ended race =
      (end_reconciling_status objects fetch types now id nn spec status generation m race).status

  -- When the goroutine is in time the status observes the generation of the spec, and has one
  -- settled entry for each resource and one entry for each subgroup of the spec, in their order.
  pub end_reconciling_status_in_time :
      ((ended in_time).observed_generation ≡ generation)
      × (map (λ s. s.obj_metadata) (ended in_time).resource_statuses ≡ spec.resources)
      × AreSettled (ended in_time).resource_statuses
      × (map (λ s. s.group_metadata) (ended in_time).subgroup_statuses ≡ spec.subgroups)
  unfolding end_reconciling_status raced_status finished_status work
  end_reconciling_status_in_time =
      let first =
        compute_resource_list_statuses objects fetch types now id status.resource_statuses m
          spec.resources in
      let second =
        compute_resource_list_statuses objects fetch types now id status.resource_statuses _
          (to_obj_metadata spec.subgroups) in
      (refl, first.0, first.1, to_group_statuses_metas _ spec.subgroups second.0)
