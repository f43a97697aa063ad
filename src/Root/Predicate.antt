-- ===== src/Root/Predicate.antt =====
-- The event filters of root_controller.go.
pub mod Loops
use kpt_resource_group.Base.{
  Bool, true, false, not, ◌&&◌, ◌||◌, Option, none, some, List, [], ◌∷◌, String, if◌then◌else◌,
  ◌==◌, string_eq, nat_eq, is_some,
}
use kpt_resource_group.GoMap.{get}
use kpt_resource_group.Api.{
  ResourceGroup, ResourceStatus, Condition, ConditionType, true_status, stalled, reconciling,
}
use kpt_resource_group.Controller.Resources.{actuation_status_to_legacy}

abbrev pub disable_status_key : String
disable_status_key = "configsync.gke.io/status"

abbrev pub disable_status_value : String
disable_status_value = "disabled"

-- func isStatusDisabled
unfoldable pub is_status_disabled : ResourceGroup → Bool
is_status_disabled g = elim (get g.annotations disable_status_key) [
  | none ↦ false
  | some val ↦ val == disable_status_value
]

-- func statusNeedsUpdate
unfoldable pub status_needs_update : List ResourceStatus → Bool
status_needs_update [] = false
status_needs_update (s ∷ ss) =
    let rest = status_needs_update ss in
    if not (actuation_status_to_legacy s == s.status) then true else rest

-- func isConditionTrue
unfoldable pub is_condition_true : ConditionType → List Condition → Bool
is_condition_true type [] = false
is_condition_true type (c ∷ cs) =
    let rest = is_condition_true type cs in if c.type == type then c.status == true_status else rest

abbrev pub condition_list : Option (List Condition) → List Condition
condition_list none = []
condition_list (some cs) = cs

-- ResourceGroupPredicate.Update; `none` is an object of another type.
unfoldable pub predicate_update : Option ResourceGroup → Option ResourceGroup → Bool
predicate_update old none = false
predicate_update none (some new) = false
predicate_update (some old) (some new) =
    let conditions = condition_list new.status.conditions in
    if not (new.generation == old.generation) || is_condition_true stalled conditions
    then true
    else if is_status_disabled new
    then is_some new.status.conditions
    else if is_condition_true reconciling conditions
    then false
    else status_needs_update new.status.resource_statuses

-- NoGenericEventPredicate.Generic
unfoldable pub predicate_generic : Option ResourceGroup → Bool
predicate_generic obj = false
