-- ===== src/Controller/Reconcile.antt =====
-- reconcileKpt of resourcegroup_controller.go: one reconciliation of a ResourceGroup.
pub mod Paths
pub mod Errors
pub mod Tests
use kpt_resource_group.Base.{Bool, true, false, List, [], String, if◌then◌else◌}
use kpt_resource_group.GoMap.{Map}
use kpt_resource_group.Api.{NamespacedName, GroupKind, GroupVersionKind, Time, ResourceGroup}
use kpt_resource_group.ResourceMap.{ResourceMap}
use kpt_resource_group.Status.{Objects}
use kpt_resource_group.Controller.Resources.{inventory_id}
use kpt_resource_group.Controller.Metrics.{Metric}
use kpt_resource_group.Controller.Update.{
  Cluster, GroupAnswer, group_found, group_not_found, group_error, Attempt, Outcome, done,
  conflicted, failed_update, update_status_kpt_group,
}
use kpt_resource_group.Controller.Finish.{
  Race, Ended, start_reconciling_status, end_reconciling_status,
}

-- ctrl.Result and the error.
pub record Reply : Type 0 where
  pub requeue : Bool
  pub failed : Bool

abbrev pub reconciled_ok : Reply
reconciled_ok = record { requeue = false; failed = false }

abbrev pub requeued : Reply
requeued = record { requeue = true; failed = true }

pub record Run (World : Type 0) : Type 0 where
  pub world : World
  pub resource_map : ResourceMap
  pub metrics : List Metric
  pub reply : Reply

module _ {objects : Objects} (cluster : Cluster objects) (types : Map GroupKind GroupVersionKind)
    (label : String) (now : Time) (nn : NamespacedName) (m : ResourceMap) (race : Race) where
  open cluster use {World, get_group, get_object}

  -- The statuses that the second update writes, from the object that the first one left.
  unfoldable pub ending : Attempt World → Ended
  ending a =
      end_reconciling_status objects (get_object a.world) types now
        (inventory_id label a.group.labels) nn a.group.spec a.group.status a.group.generation m race

  unfoldable pub second_update : Attempt World → Run World
  second_update a =
      let ended = ending a in
      let b = update_status_kpt_group cluster now ended.status a.world a.group in
      record {
        world = b.world;
        resource_map = ended.resource_map;
        metrics = ended.metrics;
        reply = elim b.outcome [ done ↦ reconciled_ok | _ ↦ requeued ];
      }

  unfoldable pub after_first : Attempt World → Run World
  after_first a = elim a.outcome [
    | done ↦ second_update a
    | _ ↦ record { world = a.world; resource_map = m; metrics = []; reply = requeued }
  ]

  unfoldable pub reconcile_kpt : World → Run World
  reconcile_kpt w = elim (get_group w nn) [
    | group_not_found ↦ record { world = w; resource_map = m; metrics = []; reply = reconciled_ok }
    | group_error ↦ record {
      world = w;
      resource_map = m;
      metrics = [];
      reply = record { requeue = false; failed = true };
    }
    | group_found rg ↦
        if rg.deleting
        then record { world = w; resource_map = m; metrics = []; reply = reconciled_ok }
        else after_first
            (update_status_kpt_group cluster now (start_reconciling_status now rg.status) w rg)
  ]
