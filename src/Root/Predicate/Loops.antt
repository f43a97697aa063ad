-- ===== src/Root/Predicate/Loops.antt =====
-- Which of the controllers' own status updates come back as a reconciliation.
use text.Mathlib.TextEquality.{eq_iff}
use kpt_resource_group.Base.{
  ℕ, ◌≡◌, refl, ap, ◌∙◌, Bool, true, false, some, List, [], ◌∷◌, String, string_eq, nat_eq, arith,
  contains, map, ◌↔◌,
}
use kpt_resource_group.GoMap.{Map}
use kpt_resource_group.Api.{
  NamespacedName, GroupKind, GroupVersionKind, ResourceGroup, ResourceGroupSpec,
  ResourceGroupStatus, ResourceStatus, Condition, Time, true_status, false_status, stalled,
  reconciling, is_empty,
}
use kpt_resource_group.ResourceMap.{ResourceMap}
use kpt_resource_group.Status.{Objects}
use kpt_resource_group.Controller.Resources.{
  actuation_status_to_legacy, failed_resources, stalled_by, aggregate_resource_statuses,
}
use kpt_resource_group.Controller.Conditions.{
  adjust_condition_order, pick_all, pick, sort_by_type, new_reconciling_condition,
  new_stalled_condition,
}
use kpt_resource_group.Controller.Compute.{Fetched}
use kpt_resource_group.Controller.Compute.Legacy.{AreSettled}
use kpt_resource_group.Controller.Update.Conflict.{ordered}
use kpt_resource_group.Controller.Finish.{
  start_reconciling_status, end_reconciling_status, finished_status, raced_status, in_time,
}
use kpt_resource_group.Controller.Finish.Status.{end_reconciling_status_in_time}
use kpt_resource_group.Root.Predicate.{
  is_status_disabled, status_needs_update, is_condition_true, condition_list, predicate_update,
}

-- No status needs an update just when ActuationStatusToLegacy gives each the status that it has.
pub status_needs_update_iff :
    (ss : List ResourceStatus) → (status_needs_update ss ≡ false) ↔ AreSettled ss
unfolding status_needs_update
status_needs_update_iff ss = (settled ss, unneeded ss)
  where
    settled : (ss : List ResourceStatus) → status_needs_update ss ≡ false → AreSettled ss
    settled [] h = tt
    settled (s ∷ ss) h = ground (arith, settled ss, eq_iff (actuation_status_to_legacy s) s.status)

    unneeded : (ss : List ResourceStatus) → AreSettled ss → status_needs_update ss ≡ false
    unneeded [] h = refl
    unneeded (s ∷ ss) h =
        ground (arith, unneeded ss, eq_iff (actuation_status_to_legacy s) s.status)

-- Whether some component failed.
abbrev has_failed : List String → Bool
has_failed [] = false
has_failed (r ∷ rs) = true

-- A status is Failed just when there is a failed component.
has_failed_lem :
    (ss : List ResourceStatus)
    → has_failed (failed_resources ss) ≡ contains (map (λ s. s.status) ss) "Failed"
unfolding failed_resources contains
has_failed_lem [] = refl
has_failed_lem (s ∷ ss) = ground (arith, has_failed_lem ss)

abbrev finished_conditions : Time → List String → List Condition
finished_conditions now failed = adjust_condition_order now (
    new_reconciling_condition now false_status "FinishReconciling" "finish reconciling"
    ∷ stalled_by now failed
    ∷ [])

finished_conditions-stalled :
    (now : Time) (failed : List String)
    → (is_condition_true stalled (finished_conditions now failed) ≡ has_failed failed)
      × (is_condition_true reconciling (finished_conditions now failed) ≡ false)
unfolding is_condition_true adjust_condition_order pick_all pick is_empty sort_by_type
    new_reconciling_condition new_stalled_condition stalled_by
finished_conditions-stalled now [] = (refl, refl)
finished_conditions-stalled now (r ∷ rs) = (refl, refl)

abbrev started_conditions : Time → List Condition
started_conditions now = adjust_condition_order now (
    new_reconciling_condition now true_status "StartReconciling" "start reconciling"
    ∷ new_stalled_condition now false_status "" ""
    ∷ [])

start_conditions :
    (now : Time)
    → (is_condition_true stalled (started_conditions now) ≡ false)
      × (is_condition_true reconciling (started_conditions now) ≡ true)
unfolding is_condition_true adjust_condition_order pick_all pick is_empty sort_by_type
    new_reconciling_condition new_stalled_condition
start_conditions now = (refl, refl)

module _ (old new : ResourceGroup) (now : Time) where
  -- The update that writes the start status, at an unchanged generation and with the status enabled,
  -- is not reconciled.
  pub start_update_ignored :
      (s : ResourceGroupStatus)
      → new.generation ≡ old.generation
      → is_status_disabled new ≡ false
      → new.status ≡ ordered now (start_reconciling_status now s)
      → predicate_update (some old) (some new) ≡ false
  unfolding predicate_update start_reconciling_status
  start_update_ignored s g d e = ground (
    arith,
    nat_eq.equals_iff new.generation old.generation,
    ap (λ t. is_condition_true stalled (condition_list t.conditions)) e ∙ (start_conditions now).0,
    ap (λ t. is_condition_true reconciling (condition_list t.conditions)) e
        ∙ (start_conditions now).1,
  )

  module _ (objects : Objects) (fetch : GroupVersionKind → NamespacedName → Fetched objects.Object)
      (types : Map GroupKind GroupVersionKind) (id : String) (nn : NamespacedName)
      (spec : ResourceGroupSpec) (status : ResourceGroupStatus) (generation : ℕ)
      (m : ResourceMap) where
    abbrev ended : ResourceGroupStatus
    ended =
        (end_reconciling_status objects fetch types now id nn spec status generation m
          in_time).status

    ended_conditions :
        condition_list (ordered now ended).conditions
        ≡ finished_conditions now (failed_resources ended.resource_statuses)
    unfolding end_reconciling_status raced_status finished_status aggregate_resource_statuses
    ended_conditions = refl

    -- The update that writes the status of a computation that was in time, at an unchanged generation
    -- and with the status enabled, is reconciled just when the status of a resource in it is Failed.
    pub finish_update_ignored :
        new.generation ≡ old.generation
        → is_status_disabled new ≡ false
        → new.status ≡ ordered now ended
        → predicate_update (some old) (some new)
          ≡ contains (map (λ s. s.status) new.status.resource_statuses) "Failed"
    unfolding predicate_update
    finish_update_ignored g d e =
        let conditions =
          finished_conditions-stalled now (failed_resources ended.resource_statuses) in
        let eq = ap (λ s. condition_list s.conditions) e ∙ ended_conditions in
        ground (
          arith,
          nat_eq.equals_iff new.generation old.generation,
          ap (is_condition_true stalled) eq ∙ conditions.0,
          ap (is_condition_true reconciling) eq ∙ conditions.1,
          ap (λ s. s.resource_statuses) e,
          has_failed_lem new.status.resource_statuses,
          (status_needs_update_iff ended.resource_statuses).1
              (end_reconciling_status_in_time objects fetch types now id nn spec status generation
                m).2,
        )
