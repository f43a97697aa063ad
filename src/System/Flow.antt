-- ===== src/System/Flow.antt =====
-- A change of an object on its way: from the watch's event, by the cache, to the status of a group that
-- lists the object.
use std.Path.{fun_ext}
use kpt_resource_group.Base.{
  ◌≡◌, refl, ap, ◌∙◌, Bool, true, false, some, [], List, String, map, contains, ◌==◌, if◌then◌else◌,
  Bool-cases, inl, inr, if_true, if_false,
}
use kpt_resource_group.GoMap.{Map}
use kpt_resource_group.Api.{
  NamespacedName, GroupKind, GroupVersionKind, ObjMetadata, Time, ResourceStatus, meta_eq, named_eq,
}
use kpt_resource_group.ResourceMap.{ResourceMap, CachedStatus, get_status}
use kpt_resource_group.ResourceMap.Links.{IsConsistent, listed}
use kpt_resource_group.ResourceMap.Queries.{has_resource_iff}
use kpt_resource_group.Status.{Objects, compute_status}
use kpt_resource_group.Controller.Resources.{set_res_status}
use kpt_resource_group.Controller.Compute.{
  Fetched, overlay, compute_resource_list, fresh_status, resource_status_map,
}
use kpt_resource_group.Controller.Compute.Reference.{
  reference_status, compute_resource_list-reference,
}
use kpt_resource_group.Watch.Filtered.{
  Watcher, unstructured, Handled, ErrorsApi, handle_object, get_id, seen_status,
}
use kpt_resource_group.Watch.Filtered.Events.{handle_object_lem}

-- What an event says of its object: NotFound, with nothing else, of a deleted one, and what ComputeStatus
-- finds of any other.
abbrev pub event_status : (objects : Objects) → Time → Bool → objects.Object → CachedStatus
event_status objects seen_at true o = record {
  status = "NotFound";
  conditions = [];
  source_hash = "";
  inventory_id = "";
}
event_status objects seen_at false o = compute_status objects seen_at o

seen_status_lem :
    (objects : Objects) (seen_at : Time) (is_deleted : Bool) (o : objects.Object)
    → seen_status objects seen_at is_deleted o ≡ event_status objects seen_at is_deleted o
unfolding seen_status
seen_status_lem objects seen_at true o = refl
seen_status_lem objects seen_at false o = refl

module _ (objects : Objects) (fetch : GroupVersionKind → NamespacedName → Fetched objects.Object)
    (types : Map GroupKind GroupVersionKind) (now : Time) (id : String) where
  -- A status that is cached needs no answer of the API server.
  reference-cached :
      (m : ResourceMap) (r : ObjMetadata) (c : CachedStatus)
      → get_status m r ≡ some c
      → reference_status objects fetch types now id m r ≡ set_res_status now id (fresh_status r) c
  unfolding reference_status
  reference-cached m r c e = rw (e, reference_status)

  -- The status of a resource depends on its own entry in the cache only.
  reference-same :
      (m m' : ResourceMap) (r : ObjMetadata)
      → get_status m r ≡ get_status m' r
      → reference_status objects fetch types now id m r
        ≡ reference_status objects fetch types now id m' r
  unfolding reference_status
  reference-same m m' r e = rw (e, reference_status)

  module _ (errors : ErrorsApi) (seen_at : Time) (w : Watcher) (is_deleted : Bool)
      (o : objects.Object) where
    abbrev seen : Handled errors.Err
    seen = handle_object objects errors seen_at w is_deleted (unstructured o)

    -- what the group's status says of a resource after the event
    abbrev pub status_after_event : ObjMetadata → ResourceStatus
    status_after_event r =
        if get_id objects o == r
        then set_res_status now id (fresh_status r) (event_status objects seen_at is_deleted o)
        else reference_status objects fetch types now id w.resource_map r

    pub each_status :
        ((q : ObjMetadata)
          → get_status seen.watcher.resource_map q ≡ (
              if get_id objects o == q
              then some (seen_status objects seen_at is_deleted o)
              else get_status w.resource_map q))
        → (r : ObjMetadata)
        → reference_status objects fetch types now id seen.watcher.resource_map r
          ≡ status_after_event r
    each_status cached r = elim (Bool-cases (get_id objects o == r)) [
      | inl h ↦ rw h (
          reference-cached seen.watcher.resource_map r _ (cached r ∙ if_true _ _ h)
          ∙ ap (set_res_status now id (fresh_status r))
              (seen_status_lem objects seen_at is_deleted o))
      | inr h ↦
          rw h
            (reference-same seen.watcher.resource_map w.resource_map r (cached r ∙ if_false _ _ h))
    ]

    -- An event on an object that a group lists, in a consistent state, is sent on to the group,
    -- and the statuses that computeStatus then computes from the cache give the object's resource
    -- what the event says, which is NotFound for a deletion, and every other resource what they
    -- gave it before, under the overlay of the actuation fields.
    pub event_reaches_status :
        (group : NamespacedName) (existing : List ResourceStatus) (metas : List ObjMetadata)
        → IsConsistent w.resource_map
        → listed w.resource_map group (get_id objects o) ≡ true
        → (contains seen.events group ≡ true)
          × ((compute_resource_list objects fetch types now id existing seen.watcher.resource_map
                metas).statuses
              ≡ map (λ r. overlay (resource_status_map existing) (status_after_event r)) metas)
    event_reaches_status group existing metas v l =
        let tracked = (has_resource_iff w.resource_map (get_id objects o) v).1 (group, l) in
        let (c, cached, heard) =
          handle_object_lem objects errors seen_at w is_deleted o v tracked in
        (
          heard group ∙ l,
          (compute_resource_list-reference objects fetch types now id existing
                seen.watcher.resource_map metas).0
              ∙ ap (λ f. map (λ r. overlay (resource_status_map existing) (f r)) metas)
                  (fun_ext (each_status cached)),
        )
