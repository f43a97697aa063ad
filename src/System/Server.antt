-- ===== src/System/Server.antt =====
-- A change of an object on the last part of its way: from the cache, by the reconciliation of a group, to
-- the status of the group at the API server.
use std.Path.{fun_ext}
use mathlib.Core.Path.{subst}
use kpt_resource_group.Base.{
  contains, ◌==◌, if◌then◌else◌, ◌≡◌, sym, ap, ◌∙◌, Bool, true, false, some, [], ◌∷◌, String, map,
}
use kpt_resource_group.GoMap.{Map}
use kpt_resource_group.Api.{
  NamespacedName, GroupKind, GroupVersionKind, ObjMetadata, Time, ResourceGroup,
  ResourceGroupStatus, ResourceStatus, meta_eq, named_eq, false_status,
}
use kpt_resource_group.Api.Subgroups.{subgroup_entry}
use kpt_resource_group.ResourceMap.Links.{IsConsistent, listed}
use kpt_resource_group.ResourceMap.Queries.{has_resource_iff}
use kpt_resource_group.ResourceMap.{get_status}
use kpt_resource_group.Status.{Objects}
use kpt_resource_group.Watch.Filtered.{
  Watcher, unstructured, ErrorsApi, Handled, handle_object, get_id, seen_status,
}
use kpt_resource_group.Watch.Filtered.Events.{handle_object_lem}
use kpt_resource_group.Controller.Conditions.{new_reconciling_condition}
use kpt_resource_group.Controller.Resources.{
  aggregate_resource_statuses, finish_reconciling, finish_reconciling_msg, inventory_id,
}
use kpt_resource_group.Controller.Compute.{overlay, resource_status_map}
use kpt_resource_group.Controller.Update.{Cluster, group_found, updated, done}
use kpt_resource_group.Controller.Update.Conflict.{ordered}
use kpt_resource_group.Controller.Finish.{in_time, start_reconciling_status}
use kpt_resource_group.Controller.Finish.Reference.{end_reconciling_status_entries}
use kpt_resource_group.Controller.Reconcile.{Run, reconcile_kpt, ending, reconciled_ok}
use kpt_resource_group.Controller.Reconcile.Paths.{reconcile_kpt_accepted}
use kpt_resource_group.System.Flow.{each_status, status_after_event}

module _ {objects : Objects} (cluster : Cluster objects) (types : Map GroupKind GroupVersionKind)
    (label : String) (now : Time) (nn : NamespacedName) (errors : ErrorsApi) (seen_at : Time)
    (watcher : Watcher) (is_deleted : Bool) (o : objects.Object) where
  open cluster use {World, get_group, get_object, update_status, deep_equal}

  -- the entry of a resource, from the group that the first write left and what the server has then
  abbrev pub entry_after : World → ResourceGroup → ObjMetadata → ResourceStatus
  entry_after w rg r = overlay (resource_status_map rg.status.resource_statuses) (
      status_after_event objects (get_object w) types now (inventory_id label rg.labels) errors
        seen_at watcher is_deleted o r)

  -- The status of the group that has what the event says of the object, and of every other resource what
  -- the cache had before the event, or else what the server has.
  abbrev pub status_after : World → ResourceGroup → ResourceGroupStatus
  status_after w rg = record {
    observed_generation = rg.generation;
    resource_statuses = map (entry_after w rg) rg.spec.resources;
    subgroup_statuses = map (subgroup_entry (entry_after w rg)) rg.spec.subgroups;
    conditions = some (
        new_reconciling_condition now false_status finish_reconciling finish_reconciling_msg
        ∷ aggregate_resource_statuses now (map (entry_after w rg) rg.spec.resources)
        ∷ []);
  }

  abbrev handled : Handled errors.Err
  handled = handle_object objects errors seen_at watcher is_deleted (unstructured o)

  -- the status that the ending computes from the cache after the event
  ending_status :
      (w : World) (rg : ResourceGroup)
      → ((q : ObjMetadata)
          → get_status handled.watcher.resource_map q ≡ (
              if get_id objects o == q
              then some (seen_status objects seen_at is_deleted o)
              else get_status watcher.resource_map q))
      → (ending cluster types label now nn handled.watcher.resource_map in_time
          (record { world = w; group = rg; outcome = done })).status
        ≡ status_after w rg
  unfolding ending
  ending_status w rg cached =
      let id = inventory_id label rg.labels in
      (end_reconciling_status_entries objects (get_object w) types now id nn rg.spec rg.status
        rg.generation handled.watcher.resource_map).0
      ∙ ap
          (λ (f : ObjMetadata → ResourceStatus).
            let e = (λ (r : ObjMetadata).
              overlay (resource_status_map rg.status.resource_statuses) (f r)) in
            record {
              observed_generation = rg.generation;
              resource_statuses = map e rg.spec.resources;
              subgroup_statuses = map (subgroup_entry e) rg.spec.subgroups;
              conditions = some (
                  new_reconciling_condition now false_status finish_reconciling
                    finish_reconciling_msg
                  ∷ aggregate_resource_statuses now (map e rg.spec.resources)
                  ∷ []);
            })
          (fun_ext (
            each_status objects (get_object w) types now id errors seen_at watcher is_deleted o
              cached))

  module _ (rg rg' rg'' : ResourceGroup) (w w' w'' : World) where
    abbrev run : Run World
    run = reconcile_kpt cluster types label now nn handled.watcher.resource_map in_time w

    -- An event on an object that a group lists, in a consistent state, is sent on to the group. When
    -- the group lives and is then reconciled in time, and both writes differ from what they replace
    -- and are accepted, the second writes the status that has for the object what the event says,
    -- which is NotFound for a deletion, and for every other resource what the cache had before the
    -- event, or else what the server has, under the overlay of the actuation fields. Nothing more is
    -- written, and no requeue is asked.
    pub event_reaches_server :
        IsConsistent watcher.resource_map
        → listed watcher.resource_map nn (get_id objects o) ≡ true
        → get_group w nn ≡ group_found rg
        → rg.deleting ≡ false
        → deep_equal rg.status (ordered now (start_reconciling_status now rg.status)) ≡ false
        → update_status w
            (record rg { status = ordered now (start_reconciling_status now rg.status) })
          ≡ (w', updated rg')
        → deep_equal rg'.status (ordered now (status_after w' rg')) ≡ false
        → update_status w' (record rg' { status = ordered now (status_after w' rg') })
          ≡ (w'', updated rg'')
        → (contains handled.events nn ≡ true) × (run.world ≡ w'') × (run.reply ≡ reconciled_ok)
    event_reaches_server v l found alive differs first differs' second =
        let m = handled.watcher.resource_map in
        let tracked = (has_resource_iff watcher.resource_map (get_id objects o) v).1 (nn, l) in
        let (c, cached, heard) =
          handle_object_lem objects errors seen_at watcher is_deleted o v tracked in
        let same : (ending cluster types label now nn m in_time
              (record { world = w'; group = rg'; outcome = done })).status
            ≡ status_after w' rg' =
          ending_status w' rg' cached in
        let accepted =
          reconcile_kpt_accepted cluster types label now nn m in_time w rg rg' rg'' w' w'' found
            alive differs first
            (subst
              (λ s.
                (deep_equal rg'.status (ordered now s) ≡ false)
                × (update_status w' (record rg' { status = ordered now s }) ≡ (w'', updated rg'')))
              (sym same) (differs', second)) in
        (
          heard nn ∙ l,
          ap (λ (r : Run World). r.world) accepted,
          ap (λ (r : Run World). r.reply) accepted,
        )
