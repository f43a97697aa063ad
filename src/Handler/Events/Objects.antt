-- ===== src/Handler/Events/Objects.antt =====
-- Who hears of a change of a watched object.
use kpt_resource_group.Base.{◌≡◌, refl, Bool, false, Option, none, some, contains}
use kpt_resource_group.Api.{NamespacedName, GroupVersionKind, ObjMetadata, named_eq}
use kpt_resource_group.ResourceMap.{ResourceMap}
use kpt_resource_group.ResourceMap.Links.{IsConsistent, listed}
use kpt_resource_group.ResourceMap.Queries.{contains-readers}
use kpt_resource_group.Handler.Events.{Notice, subject, to_gknn, enqueue_event, on_notice}

-- whether a group lists the resource, if there is one
abbrev lists : ResourceMap → NamespacedName → Option ObjMetadata → Bool
lists m g none = false
lists m g (some r) = listed m g r

contains-enqueue_event :
    (m : ResourceMap) (gvk : GroupVersionKind) (o : Option NamespacedName) (g : NamespacedName)
    → IsConsistent m
    → contains (enqueue_event m gvk o) g ≡ lists m g (to_gknn gvk o)
unfolding enqueue_event to_gknn contains
contains-enqueue_event m gvk none g v = refl
contains-enqueue_event m gvk (some o) g v = (contains-readers m _ v).0 g

-- In a consistent state a notice of any kind is sent on to just the groups that list its object, which for
-- an update is the new one; an object whose metadata cannot be read is sent to none.
pub contains-on_notice :
    (m : ResourceMap) (gvk : GroupVersionKind) (n : Notice (Option NamespacedName))
    (g : NamespacedName)
    → IsConsistent m
    → contains (on_notice m gvk n) g ≡ lists m g (to_gknn gvk (subject n))
unfolding on_notice
contains-on_notice m gvk n g v = contains-enqueue_event m gvk (subject n) g v
