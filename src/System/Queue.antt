-- ===== src/System/Queue.antt =====
-- A change of an object on its way to the work queue: from the watch's event, through the channel and
-- the throttler, to the request for each group that lists the object.
use kpt_resource_group.Base.{ℕ, ◌≡◌, ◌∙◌, Bool, true, false, List, map, contains, length}
use kpt_resource_group.Api.{NamespacedName, Time, named_eq, meta_eq}
use kpt_resource_group.ResourceMap.Links.{IsConsistent, listed}
use kpt_resource_group.ResourceMap.Queries.{has_resource_iff}
use kpt_resource_group.Status.{Objects}
use kpt_resource_group.Watch.Filtered.{Watcher, unstructured, ErrorsApi, handle_object, get_id}
use kpt_resource_group.Watch.Filtered.Events.{handle_object_lem}
use kpt_resource_group.Handler.Throttler.{Throttler, Move, goes_on, make_moves}
use kpt_resource_group.Handler.Throttler.Invariant.{IsThrottled}
use kpt_resource_group.Handler.Throttler.Drain.{IsSchedule, work}
use kpt_resource_group.Handler.Throttler.Delivery.{leaving, arrives_in, taken, delivered}

-- An event on an object that a group lists, in a consistent state, brings the group to the work
-- queue. It is sent into the channel for the group; when a throttler whose mapping holds just the
-- objects of its goroutines, one for each, has received what was sent, whatever else arrives and
-- whichever goroutines go on meanwhile, and its goroutines have then taken the steps that are left
-- to them, in whatever order, the request of the group is in the queue that was emptied before the
-- event. At the time of the event no goroutine may have pushed the group without having deleted its
-- entry.
pub event_reaches_queue :
    (objects : Objects) (errors : ErrorsApi) (seen_at : Time) (w : Watcher) (is_deleted : Bool)
    (o : objects.Object) (group : NamespacedName) (t : Throttler) (xs : List Move) (ns : List ℕ)
    → IsConsistent w.resource_map
    → listed w.resource_map group (get_id objects o) ≡ true
    → IsThrottled t
    → leaving t.goroutines group ≡ false
    → ((g : NamespacedName)
        → contains (handle_object objects errors seen_at w is_deleted (unstructured o)).events g
          ≡ true
        → arrives_in xs g ≡ true)
    → IsSchedule ns (make_moves (taken t) xs)
    → length ns ≡ work (make_moves (taken t) xs).goroutines
    → contains (make_moves (make_moves (taken t) xs) (map goes_on ns)).queue group ≡ true
event_reaches_queue objects errors seen_at w is_deleted o group t xs ns v l thr free received s e =
    let tracked = (has_resource_iff w.resource_map (get_id objects o) v).1 (group, l) in
    let (c, cached, heard) = handle_object_lem objects errors seen_at w is_deleted o v tracked in
    delivered t xs ns group thr free (received group (heard group ∙ l)) s e
