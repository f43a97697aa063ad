-- ===== src/Controller/Resources/Ownership.antt =====
-- What one resource's entry in the status says of its owner.
use kpt_resource_group.Base.{
  ◌≡◌, inl, inr, List, [], ◌∷◌, ◌++◌, String, if◌then◌else◌, ◌==◌, string_eq, Bool-cases,
}
use mathlib.Core.List.{append-nil}
use kpt_resource_group.Api.{
  Time, Condition, ResourceStatus, ownership, true_status, unknown_status, ownership_unmatch,
  ownership_empty,
}
use kpt_resource_group.ResourceMap.{CachedStatus}
use kpt_resource_group.Controller.Resources.{
  set_res_status, ownership_condition, overlap_message, no_owner_message,
}

-- The conditions that the owner adds: none for the group itself, one of status True that names another
-- owner, and one of status Unknown where there is none.
abbrev pub owner_conditions : Time → String → String → List Condition
owner_conditions now id inv =
    if id == inv
    then []
    else if inv == ""
    then record {
      type = ownership;
      status = unknown_status;
      reason = ownership_empty;
      message = no_owner_message;
      last_transition_time = now;
    }
      ∷ []
    else record {
      type = ownership;
      status = true_status;
      reason = ownership_unmatch;
      message = overlap_message inv;
      last_transition_time = now;
    }
      ∷ []

-- setResStatus copies the status, the hash and the conditions from the cache, keeps the other fields, and
-- appends the condition that the owner of the object calls for.
pub set_res_status_lem :
    (now : Time) (id : String) (s : ResourceStatus) (c : CachedStatus)
    → set_res_status now id s c ≡ record s {
      status = c.status;
      source_hash = c.source_hash;
      conditions = c.conditions ++ owner_conditions now id c.inventory_id;
    }
unfolding set_res_status ownership_condition
set_res_status_lem now id s c = elim (Bool-cases (id == c.inventory_id)) [
  | inl h ↦ rw (h, set_res_status, ownership_condition, append-nil c.conditions)
  | inr h ↦ elim (Bool-cases (c.inventory_id == "")) [
    | inl k ↦ rw (h, k, set_res_status, ownership_condition)
    | inr k ↦ rw (h, k, set_res_status, ownership_condition)
  ]
]
