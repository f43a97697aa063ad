-- ===== src/Controller/Reconcile/Paths.antt =====
-- The paths through one reconciliation.
use kpt_resource_group.Base.{◌≡◌, ◌∙◌, ap, ◌⊎◌, true, false, [], String, if_false, arith}
use kpt_resource_group.GoMap.{Map}
use kpt_resource_group.Api.{
  NamespacedName, GroupKind, GroupVersionKind, Time, ResourceGroup, ResourceGroupStatus,
}
use kpt_resource_group.ResourceMap.{ResourceMap}
use kpt_resource_group.Status.{Objects}
use kpt_resource_group.Controller.Update.{Cluster, group_found, group_not_found, done, updated}
use kpt_resource_group.Controller.Update.Conflict.{ordered, update_status_kpt_group_lem}
use kpt_resource_group.Controller.Finish.{Race, start_reconciling_status}
use kpt_resource_group.Controller.Reconcile.{
  Run, reconcile_kpt, after_first, second_update, ending, reconciled_ok,
}

module _ {objects : Objects} (cluster : Cluster objects) (types : Map GroupKind GroupVersionKind)
    (label : String) (now : Time) (nn : NamespacedName) (m : ResourceMap) (race : Race)
    (w : cluster.World) where
  open cluster use {World, get_group, update_status, deep_equal}

  abbrev run : Run World
  run = reconcile_kpt cluster types label now nn m race w

  abbrev ended_status : ResourceGroup → World → ResourceGroupStatus
  ended_status rg' w' =
      (ending cluster types label now nn m race
        (record { world = w'; group = rg'; outcome = done })).status

  -- A reconciliation of a group that is gone or being deleted writes nothing, changes no cache and
  -- asks for no requeue.
  pub reconcile_kpt_gone :
      (get_group w nn ≡ group_not_found)
        ⊎ ((rg : ResourceGroup) × (get_group w nn ≡ group_found rg) × (rg.deleting ≡ true))
      → run ≡ record { world = w; resource_map = m; metrics = []; reply = reconciled_ok }
  unfolding reconcile_kpt
  reconcile_kpt_gone h = ground arith

  -- With both writes accepted a reconciliation makes just these two, first the start status and then
  -- the status that the ending computes from the object that the server answered, keeps the
  -- resource map and the measurements of the ending, and asks for no requeue.
  pub reconcile_kpt_accepted :
      (rg rg' rg'' : ResourceGroup) (w' w'' : World)
      → get_group w nn ≡ group_found rg
      → rg.deleting ≡ false
      → deep_equal rg.status (ordered now (start_reconciling_status now rg.status)) ≡ false
      → update_status w
          (record rg { status = ordered now (start_reconciling_status now rg.status) })
        ≡ (w', updated rg')
      → (let ended =
            (ending cluster types label now nn m race
              (record { world = w'; group = rg'; outcome = done })) in
          (deep_equal rg'.status (ordered now ended.status) ≡ false)
          × (update_status w' (record rg' { status = ordered now ended.status })
              ≡ (w'', updated rg'')))
      → let ended =
          (ending cluster types label now nn m race
            (record { world = w'; group = rg'; outcome = done })) in
        run ≡ record {
          world = w'';
          resource_map = ended.resource_map;
          metrics = ended.metrics;
          reply = reconciled_ok;
        }
  unfolding reconcile_kpt after_first second_update
  reconcile_kpt_accepted rg rg' rg'' w' w'' found alive d e h =
      rw (found, reconcile_kpt)
        (if_false _ _ alive
          ∙ ap (after_first cluster types label now nn m race) (
              update_status_kpt_group_lem cluster now (start_reconciling_status now rg.status) w rg
                w' rg' d e)
          ∙ rw (
              update_status_kpt_group_lem cluster now (ended_status rg' w') w' rg' w'' rg'' h.0
                h.1))
