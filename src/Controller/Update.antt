-- ===== src/Controller/Update.antt =====
-- updateStatusKptGroup of resourcegroup_controller.go. The API server, the semantic equality of
-- statuses and the retry helper of client-go are libraries: they come as the record `Cluster`.
pub mod Conflict
pub mod Retry
pub mod Answers
use kpt_resource_group.Base.{
  ℕ, zero, suc, ◌≡◌, Bool, true, false, Option, none, some, List, [], ◌∷◌, if◌then◌else◌,
}
use kpt_resource_group.Api.{
  NamespacedName, GroupVersionKind, Time, ResourceGroup, ResourceGroupStatus, Condition,
}
use kpt_resource_group.Status.{Objects}
use kpt_resource_group.Controller.Compute.{Fetched}
use kpt_resource_group.Controller.Conditions.{adjust_condition_order}

-- How a write of the status ends; a success hands back the object as the server has it now.
pub data UpdateAnswer : Type 0 where
  updated : ResourceGroup → UpdateAnswer
  conflict update_failed : UpdateAnswer

-- The error of an attempt; `done` is nil.
pub data Outcome : Type 0 where
  done conflicted failed_update : Outcome

-- What an attempt leaves: the server, the object in memory, and the error.
pub record Attempt (World : Type 0) : Type 0 where
  pub world : World
  pub group : ResourceGroup
  pub outcome : Outcome

-- After an attempt that ends in a conflict the rest goes on from what it left.
unfoldable pub go_on : {W : Type 0} → (W → ResourceGroup → Attempt W) → Attempt W → Attempt W
go_on rest a = elim a.outcome [ conflicted ↦ rest a.world a.group | _ ↦ a ]

-- What the documentation of RetryOnConflict says: an attempt that ends in a conflict is made again,
-- `n` times at most, and any other is the last.
unfoldable pub attempts :
    {W : Type 0} → ℕ → (W → ResourceGroup → Attempt W) → W → ResourceGroup → Attempt W
unfolding go_on
attempts zero f w g = f w g
attempts (suc n) f w g = go_on (attempts n f) (f w g)

-- How a read of a ResourceGroup ends.
pub data GroupAnswer : Type 0 where
  group_found : ResourceGroup → GroupAnswer
  group_not_found group_error : GroupAnswer

pub record Cluster (objects : Objects) : Type 1 where
  -- the state of the API server, and of all that writes to it besides
  pub World : Type 0
  pub get_group : World → NamespacedName → GroupAnswer
  pub get_object : World → GroupVersionKind → NamespacedName → Fetched objects.Object
  -- r.Status().Update
  pub update_status : World → ResourceGroup → World × UpdateAnswer
  -- apiequality.Semantic.DeepEqual
  pub deep_equal : ResourceGroupStatus → ResourceGroupStatus → Bool
  pub deep_equal_refl : (s : ResourceGroupStatus) → deep_equal s s ≡ true
  -- retry.RetryOnConflict with retry.DefaultBackoff
  pub retries : ℕ
  pub retry_on_conflict :
      (World → ResourceGroup → Attempt World) → World → ResourceGroup → Attempt World
  pub retry_lem :
      (f : World → ResourceGroup → Attempt World) (w : World) (g : ResourceGroup)
      → retry_on_conflict f w g ≡ attempts retries f w g

abbrev items : Option (List Condition) → List Condition
items none = []
items (some cs) = cs

module _ {objects : Objects} (cluster : Cluster objects) where
  open cluster use {World, update_status, deep_equal, retry_on_conflict}

  abbrev answered : ResourceGroup → World × UpdateAnswer → Attempt World
  answered g (w, updated g') = record { world = w; group = g'; outcome = done }
  answered g (w, conflict) = record { world = w; group = g; outcome = conflicted }
  answered g (w, update_failed) = record { world = w; group = g; outcome = failed_update }

  -- The closure that is retried. It writes the new status into the object before the update.
  unfoldable pub write_status : ResourceGroupStatus → World → ResourceGroup → Attempt World
  write_status new w g =
      if deep_equal g.status new
      then record { world = w; group = g; outcome = done }
      else let g' = record g { status = new } in answered g' (update_status w g')

  -- func (r *reconciler) updateStatusKptGroup
  unfoldable pub update_status_kpt_group :
      Time → ResourceGroupStatus → World → ResourceGroup → Attempt World
  update_status_kpt_group now new = retry_on_conflict (
      write_status
        (record new { conditions = some (adjust_condition_order now (items new.conditions)) }))
