-- ===== src/Handler/Events/Definitions.antt =====
-- What a change of a CustomResourceDefinition does to the cache, and who hears of it.
use kpt_resource_group.Base.{
  Option, ◌≡◌, refl, true, ◌&&◌, none, some, List, [], ◌∷◌, arith, contains, contains-append,
  if◌then◌else◌, ◌==◌,
}
use kpt_resource_group.Api.{NamespacedName, GroupKind, ObjMetadata, gk, gk_eq, named_eq, meta_eq}
use kpt_resource_group.ResourceMap.{
  ResourceMap, CachedStatus, groups_of, get_resources, set_status, get_status, has_resource,
}
use kpt_resource_group.ResourceMap.Links.{IsConsistent, included, listed}
use kpt_resource_group.ResourceMap.Queries.{
  contains-readers, contains-groups_of, get_status-set_status, set_status-IsConsistent,
  included-set_status, has_resource_iff,
}
use kpt_resource_group.Handler.Events.{reset_statuses, enqueue_crd_event}

reset_statuses-get_status :
    (m : ResourceMap) (rs : List ObjMetadata) (q : ObjMetadata)
    → get_status (reset_statuses m rs).0 q ≡ (if contains rs q then none else get_status m q)
unfolding reset_statuses contains
reset_statuses-get_status m [] q = refl
reset_statuses-get_status m (r ∷ rs) q =
    ground (
      arith,
      reset_statuses-get_status (set_status m r none) rs q,
      get_status-set_status m r q none,
    )

-- What SetStatus keeps, the loop keeps.
module _ (P : ResourceMap → Type 0)
    (set_status-keeps : (m : ResourceMap) (r : ObjMetadata) (s : Option CachedStatus)
      → P m
      → P (set_status m r s)) where
  reset_statuses-keeps : (m : ResourceMap) (rs : List ObjMetadata) → P m → P (reset_statuses m rs).0
  unfolding reset_statuses
  reset_statuses-keeps m [] v = v
  reset_statuses-keeps m (r ∷ rs) v =
      reset_statuses-keeps (set_status m r none) rs (set_status-keeps m r none v)

  pub enqueue_crd_event-keeps :
      (m : ResourceMap) (crd : Option GroupKind) → P m → P (enqueue_crd_event m crd).0
  unfolding enqueue_crd_event
  enqueue_crd_event-keeps m none v = v
  enqueue_crd_event-keeps m (some k) v = reset_statuses-keeps m (get_resources m k) v

-- an event for each group that includes one of the resources
reset_statuses-events :
    (m : ResourceMap) (rs : List ObjMetadata) (g : NamespacedName) (q : ObjMetadata)
    → contains rs q ≡ true
    → included m q g ≡ true
    → contains (reset_statuses m rs).1 g ≡ true
unfolding reset_statuses contains
reset_statuses-events m [] g q h i = cc
reset_statuses-events m (r ∷ rs) g q h i =
    let m' = set_status m r none in
    ground (
      arith,
      contains-append (groups_of m' r) (reset_statuses m' rs).1 g,
      contains-groups_of m' r g,
      included-set_status m r none r g,
      included-set_status m r none q g,
      meta_eq.equals_iff r q,
      reset_statuses-events m' rs g q,
    )

-- A call of enqueueEvent for a CustomResourceDefinition, in a consistent state and with no other call
-- between its own, clears the cached status of each tracked resource of the group and kind that the
-- definition has and keeps every other, sends an event to each group that includes such a resource, and
-- keeps the state consistent.
pub enqueue_crd_event_lem :
    (m : ResourceMap) (k : GroupKind)
    → IsConsistent m
    → IsConsistent (enqueue_crd_event m (some k)).0
      × ((q : ObjMetadata)
          → get_status (enqueue_crd_event m (some k)).0 q
            ≡ (if gk q == k && has_resource m q then none else get_status m q))
      × ((q : ObjMetadata) (g : NamespacedName)
          → gk q ≡ k
          → listed m g q ≡ true
          → contains (enqueue_crd_event m (some k)).1 g ≡ true)
unfolding enqueue_crd_event
enqueue_crd_event_lem m k v = (
  reset_statuses-keeps IsConsistent set_status-IsConsistent m (get_resources m k) v,
  λ q.
      ground
        (arith, reset_statuses-get_status m (get_resources m k) q, (contains-readers m q v).1 k),
  λ q g e h.
      reset_statuses-events m (get_resources m k) g q
        (ground (
          arith,
          (contains-readers m q v).1 k,
          has_resource_of_listed q g h,
          gk_eq.equals_iff (gk q) k,
          e,
        ))
        (ground (arith, v.mirrored q g, h)),
)
  where
    has_resource_of_listed :
        (q : ObjMetadata) (g : NamespacedName) → listed m g q ≡ true → has_resource m q ≡ true
    has_resource_of_listed q g h = (has_resource_iff m q v).1 (g, h)
