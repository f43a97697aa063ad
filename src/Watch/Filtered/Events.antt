-- ===== src/Watch/Filtered/Events.antt =====
-- What an event on an object does to the cache, and which groups hear of it.
use kpt_resource_group.Base.{
  Option, Bool-cases, inl, inr, false, none, ◌≡◌, ◌∙◌, Bool, true, some, contains, if◌then◌else◌,
  ◌==◌,
}
use kpt_resource_group.Api.{NamespacedName, ObjMetadata, Time, named_eq, meta_eq}
use kpt_resource_group.ResourceMap.{get_status, set_status, has_resource, ResourceMap, CachedStatus}
use kpt_resource_group.ResourceMap.Links.{IsConsistent, listed}
use kpt_resource_group.ResourceMap.Queries.{
  get_status-set_status, set_status-IsConsistent, contains-groups_of, included-set_status,
}
use kpt_resource_group.Status.{Objects}
use kpt_resource_group.Watch.Filtered.{
  Payload, other_payload, Event, added, modified, deleted, bookmark, error_event, unsupported,
  handle, log_only, Watcher, unstructured, Handled, ErrorsApi, handle_object, should_process,
  get_id, seen_status,
}

module _ (objects : Objects) (errors : ErrorsApi) (now : Time) (w : Watcher) (is_deleted : Bool)
    (o : objects.Object) where
  abbrev handled : Handled errors.Err
  handled = handle_object objects errors now w is_deleted (unstructured o)

  -- An event on an object that some group includes, in a consistent state, stores the status of the
  -- object, which is NotFound for a deletion, keeps every other cached status, keeps the state
  -- consistent, and sends an event to just the groups that list the object.
  pub handle_object_lem :
      IsConsistent w.resource_map
      → has_resource w.resource_map (get_id objects o) ≡ true
      → IsConsistent handled.watcher.resource_map
        × ((q : ObjMetadata)
            → get_status handled.watcher.resource_map q ≡ (
                if get_id objects o == q
                then some (seen_status objects now is_deleted o)
                else get_status w.resource_map q))
        × ((g : NamespacedName)
            → contains handled.events g ≡ listed w.resource_map g (get_id objects o))
  unfolding handle_object should_process
  handle_object_lem v h =
      let id = get_id objects o in
      let s = some (seen_status objects now is_deleted o) in
      rw h (
        set_status-IsConsistent w.resource_map id s v,
        λ q. get_status-set_status w.resource_map id q s,
        λ g.
            contains-groups_of (set_status w.resource_map id s) id g
            ∙ included-set_status w.resource_map id s id g
            ∙ v.mirrored id g,
      )

module _ (objects : Objects) (errors : ErrorsApi) (now : Time) (w : Watcher)
    (P : ResourceMap → Type 0)
    (set_status-keeps : (m : ResourceMap) (r : ObjMetadata) (s : Option CachedStatus)
      → P m
      → P (set_status m r s)) where
  handle_object-keeps :
      (d : Bool) (p : Payload objects.Object)
      → P w.resource_map
      → P (handle_object objects errors now w d p).watcher.resource_map
  unfolding handle_object
  handle_object-keeps d other_payload v = v
  handle_object-keeps d (unstructured o) v =
      elim (Bool-cases (should_process objects w.resource_map o)) [
        | inl h ↦ rw (h, handle_object) (set_status-keeps w.resource_map (get_id objects o) _ v)
        | inr h ↦ rw (h, handle_object) v
      ]

  -- An event changes the resource map by SetStatus only, so it keeps what SetStatus keeps.
  pub handle-keeps :
      (e : Event objects.Object errors.Err)
      → P w.resource_map
      → P (handle objects errors now w e).watcher.resource_map
  unfolding handle log_only
  handle-keeps (added p) v = handle_object-keeps false p v
  handle-keeps (modified p) v = handle_object-keeps false p v
  handle-keeps (deleted p) v = handle_object-keeps true p v
  handle-keeps (bookmark none) v = v
  handle-keeps (bookmark (some x)) v = v
  handle-keeps (error_event e) v = v
  handle-keeps unsupported v = v
