-- ===== src/Controller/Resources/Aggregate.antt =====
-- The Stalled condition that sums up the resources, and what one resource's status keeps.
use kpt_resource_group.Base.{
  ◌≡◌, refl, true, false, List, [], ◌∷◌, String, arith, if◌then◌else◌, ◌==◌, string_eq, contains,
  map, length, ◌≤◌, Bool-cases, inl, inr,
}
use kpt_resource_group.Api.{
  Time, ResourceStatus, Status, failed, stalled, true_status, false_status,
}
use kpt_resource_group.Controller.Conditions.{new_stalled_condition}
use kpt_resource_group.Controller.Resources.{
  aggregate_resource_statuses, stalled_by, failed_resources, current_status_count, component_failed,
  finish_reconciling,
}

abbrev pub statuses_of : List ResourceStatus → List Status
statuses_of = map λ s. s.status

failed_resources_iff :
    (ss : List ResourceStatus)
    → contains (statuses_of ss) failed ≡ (elim (failed_resources ss) [ [] ↦ false | x ∷ xs ↦ true ])
unfolding failed_resources contains
failed_resources_iff [] = refl
failed_resources_iff (s ∷ ss) = elim (Bool-cases (s.status == failed)) [
  | inl h ↦ rw (h, failed_resources)
  | inr h ↦ rw (h, failed_resources) (failed_resources_iff ss)
]

-- aggregateResourceStatuses gives a Stalled condition, which is True with the reason
-- ComponentFailed if some resource is Failed, and False with the reason FinishReconciling if none is.
pub aggregate_resource_statuses_lem :
    (now : Time) (ss : List ResourceStatus)
    → ((aggregate_resource_statuses now ss).type ≡ stalled)
      × ((aggregate_resource_statuses now ss).status
          ≡ (if contains (statuses_of ss) failed then true_status else false_status))
      × ((aggregate_resource_statuses now ss).reason
          ≡ (if contains (statuses_of ss) failed then component_failed else finish_reconciling))
unfolding aggregate_resource_statuses
aggregate_resource_statuses_lem now ss = rw (failed_resources_iff ss) (summed (failed_resources ss))
  where
    summed :
        (rs : List String)
        → ((stalled_by now rs).type ≡ stalled)
          × ((stalled_by now rs).status
              ≡ (if elim rs [ [] ↦ false | x ∷ xs ↦ true ] then true_status else false_status))
          × ((stalled_by now rs).reason ≡ (
              if elim rs [ [] ↦ false | x ∷ xs ↦ true ]
              then component_failed
              else finish_reconciling))
    summed [] = unfold stalled_by new_stalled_condition in (refl, refl, refl)
    summed (r ∷ rs) = unfold stalled_by new_stalled_condition in (refl, refl, refl)

-- currentStatusCount is at most the number of resources.
pub current_status_count-le : (ss : List ResourceStatus) → current_status_count ss ≤ length ss
unfolding current_status_count
current_status_count-le [] = omega arith
current_status_count-le (s ∷ ss) = ground (arith, current_status_count-le ss)
