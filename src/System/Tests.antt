-- ===== src/System/Tests.antt =====
-- A reachable state, and the theorem on it.
use kpt_resource_group.Base.{
  arith, List, none, true, refl, map, String, contains, ◌≡◌, false, some, ◌∷◌, [],
}
use kpt_resource_group.GoMap.{get, put}
use kpt_resource_group.KeySet
use kpt_resource_group.KeySet.{member}
use kpt_resource_group.Api.{
  GroupVersionKind, NamespacedName, ResourceGroup, named_eq, meta_eq, is_empty,
}
use kpt_resource_group.ResourceMap.Tests.{shared-IsConsistent, group_a, group_b, deployment}
use kpt_resource_group.Controller.Compute.{Fetched, found}
use kpt_resource_group.Watch.Filtered.{handle_object, unstructured, get_id, should_process}
use kpt_resource_group.Watch.Filtered.Tests.{
  watcher, objects as seen_objects, errors as seen_errors,
}
use kpt_resource_group.Handler.Throttler.{
  make_move, take_effect, advance, generic, arrives, goes_on, make_moves, new_throttler, Move,
}
use kpt_resource_group.Handler.Throttler.Invariant.{throttled}
use kpt_resource_group.Handler.Throttler.Delivery.{taken, leaving}
use kpt_resource_group.Handler.Throttler.Drain.{work}
use kpt_resource_group.Controller.Fixtures.{Server, test_cluster, test_group}
use kpt_resource_group.Controller.Update.{Cluster}
use kpt_resource_group.Controller.Update.Conflict.{ordered}
use kpt_resource_group.Controller.Finish.{in_time, start_reconciling_status}
use kpt_resource_group.Controller.Reconcile.{reconcile_kpt, reconciled_ok}
use kpt_resource_group.Controller.Conditions.{
  adjust_condition_order, new_reconciling_condition, new_stalled_condition, pick_all, pick,
}
use kpt_resource_group.System.Server.{event_reaches_server, status_after}
use kpt_resource_group.System.Queue.{event_reaches_queue}
use kpt_resource_group.ResourceMap.{
  Reconciled, ResourceMap, has_resource, groups_of, new_resource_map, set_status,
}
use kpt_resource_group.ResourceMap.Links.{IsConsistent}
use kpt_resource_group.ResourceMap.Groups.{Reconciles}
use kpt_resource_group.ResourceMap.Kinds.{ListsKinds}
use kpt_resource_group.Status.{compute_status}
use kpt_resource_group.Status.Tests.{test_objects}
use kpt_resource_group.System.{
  Pending, IsReachable, begin_reconcile, end_reconcile, starts, begins, sets, reachable_lem,
}

-- A call of Reconcile has read the old set of its group, and before it gets the lock a status is stored
-- for a resource that no group includes yet.
abbrev waiting : Pending
waiting = begin_reconcile new_resource_map group_a (deployment ∷ []) false

abbrev stored : ResourceMap
stored = set_status new_resource_map deployment (some (compute_status test_objects 4 "Current"))

stored-IsReachable : IsReachable stored (some waiting)
stored-IsReachable =
    sets new_resource_map (some waiting) deployment (some (compute_status test_objects 4 "Current"))
      (begins new_resource_map group_a (deployment ∷ []) false starts)

reachable_lem_example :
    IsConsistent stored
    × ((out : Reconciled) × (end_reconcile stored waiting ≡ some out)
        × IsReachable out.resource_map none
        × Reconciles group_a (deployment ∷ []) false stored out
        × ListsKinds out)
reachable_lem_example = reachable_lem stored waiting stored-IsReachable

-- What the API server has for each resource.
abbrev there : GroupVersionKind → NamespacedName → Fetched (String × String)
there gvk nn = found (nn.name, "3")

-- The throttler receives the events for the two groups that list the deployment, and a goroutine goes on.
abbrev received : List Move
received = arrives (some group_a) ∷ arrives (some group_b) ∷ goes_on 1 ∷ []

event_reaches_queue_example :
    contains
      (make_moves (make_moves (taken new_throttler) received) (map goes_on (0 ∷ 1 ∷ 0 ∷ []))).queue
      group_a
    ≡ true
unfolding get get_id named_eq meta_eq member handle_object new_throttler make_moves leaving work
    make_move take_effect advance generic put contains should_process has_resource groups_of
    set_status KeySet.to_slice
event_reaches_queue_example =
    event_reaches_queue seen_objects seen_errors 7 watcher true ("web", "12") group_a new_throttler
      received (0 ∷ 1 ∷ 0 ∷ []) shared-IsConsistent refl (throttled []) refl (λ g h. h)
      (omega arith, (omega arith, (omega arith, tt))) refl

-- A server with the objects of the watch, and the group there.
abbrev seen_cluster : Cluster seen_objects
seen_cluster = record {
  World = Server;
  get_group = test_cluster.get_group;
  get_object = λ w. there;
  update_status = test_cluster.update_status;
  deep_equal = test_cluster.deep_equal;
  deep_equal_refl = test_cluster.deep_equal_refl;
  retries = test_cluster.retries;
  retry_on_conflict = test_cluster.retry_on_conflict;
  retry_lem = test_cluster.retry_lem;
}

abbrev group_there : ResourceGroup
group_there = record test_group {
  meta_name = group_a;
  spec = record { resources = deployment ∷ []; subgroups = [] };
}

abbrev group_started : ResourceGroup
group_started = record group_there {
  status = ordered 9 (start_reconciling_status 9 group_there.status);
}

abbrev holding : ResourceGroup → Server
holding g = record { refusals = 0; stored = some g }

abbrev group_ended : ResourceGroup
group_ended = record group_started {
  status = ordered 9 (
      status_after seen_cluster [] "label" 9 group_a seen_errors 7 watcher true ("web", "12")
        (holding group_started) group_started);
}

event_reaches_server_example :
    let h = handle_object seen_objects seen_errors 7 watcher true (unstructured ("web", "12")) in
    let run =
      reconcile_kpt seen_cluster [] "label" 9 group_a h.watcher.resource_map in_time
        (holding group_there) in
    (contains h.events group_a ≡ true)
    × (run.world ≡ holding group_ended)
    × (run.reply ≡ reconciled_ok)
unfolding get get_id named_eq meta_eq member start_reconciling_status adjust_condition_order
    pick_all pick is_empty new_reconciling_condition new_stalled_condition
event_reaches_server_example =
    event_reaches_server seen_cluster [] "label" 9 group_a seen_errors 7 watcher true ("web", "12")
      group_there group_started group_ended (holding group_there) (holding group_started)
      (holding group_ended) shared-IsConsistent refl refl refl refl refl refl refl
