-- ===== src/Handler/Events.antt =====
-- controllers/handler/event_handler.go and crd_event_handler.go: which ResourceGroups get an event
-- when a watched object or a CustomResourceDefinition changes. An event on the channel is the name
-- of its ResourceGroup. A call of enqueueEvent is one step here, though each of its calls of the resource
-- map takes the lock for itself; System has these as single steps.
pub mod Definitions
pub mod Objects
use kpt_resource_group.Base.{Bool, Option, none, some, List, [], ◌∷◌, ◌++◌, String}
use kpt_resource_group.Api.{NamespacedName, GroupKind, GroupVersionKind, ObjMetadata}
use kpt_resource_group.ResourceMap.{ResourceMap, groups_of, get_resources, set_status}

-- EnqueueEventToChannel.toGKNN; `none` is an object whose metadata cannot be read.
unfoldable pub to_gknn : GroupVersionKind → Option NamespacedName → Option ObjMetadata
to_gknn gvk none = none
to_gknn gvk (some o) = some (record {
  namespace = o.namespace;
  name = o.name;
  group_kind = record { group = gvk.group; kind = gvk.kind };
})

-- EnqueueEventToChannel.enqueueEvent: the events that go to the channel.
unfoldable pub enqueue_event :
    ResourceMap → GroupVersionKind → Option NamespacedName → List NamespacedName
enqueue_event m gvk obj = elim (to_gknn gvk obj) [ none ↦ [] | some gknn ↦ groups_of m gknn ]

-- The loop of CRDEventHandler.enqueueEvent.
unfoldable pub reset_statuses : ResourceMap → List ObjMetadata → ResourceMap × List NamespacedName
reset_statuses m [] = (m, [])
reset_statuses m (gknn ∷ rest) =
    let m' = set_status m gknn none in
    let (last, events) = reset_statuses m' rest in (last, groups_of m' gknn ++ events)

-- CRDEventHandler.enqueueEvent; `none` is an object that is no CustomResourceDefinition, and another
-- one is read for the group and the kind that it defines.
unfoldable pub enqueue_crd_event :
    ResourceMap → Option GroupKind → ResourceMap × List NamespacedName
enqueue_crd_event m none = (m, [])
enqueue_crd_event m (some k) = reset_statuses m (get_resources m k)

-- What a watch of objects reports; an update has the object before and after.
pub data Notice (Object : Type 0) : Type 0 where
  is_created is_deleted is_sent : Object → Notice Object
  is_updated : Object → Object → Notice Object

-- the object that every handler looks at
unfoldable pub subject : {Object : Type 0} → Notice Object → Object
subject (is_created o) = o
subject (is_updated o o') = o'
subject (is_deleted o) = o
subject (is_sent o) = o

-- OnAdd, OnUpdate and OnDelete of EnqueueEventToChannel
unfoldable pub on_notice :
    ResourceMap → GroupVersionKind → Notice (Option NamespacedName) → List NamespacedName
on_notice m gvk n = enqueue_event m gvk (subject n)

-- Create, Update, Delete and Generic of CRDEventHandler
unfoldable pub on_crd_notice :
    ResourceMap → Notice (Option GroupKind) → ResourceMap × List NamespacedName
on_crd_notice m n = enqueue_crd_event m (subject n)
