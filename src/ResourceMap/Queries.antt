-- ===== src/ResourceMap/Queries.antt =====
-- What the readers of the map answer in a consistent state.
use kpt_resource_group.Base.{
  ◌≡◌, refl, ◌↔◌, true, false, ◌&&◌, none, some, [], arith, ◌==◌, contains, if◌then◌else◌, is_some,
  Option, nat_eq,
}
use kpt_resource_group.GoMap.{get}
use kpt_resource_group.GoMap.Laws.{get-put}
use kpt_resource_group.KeySet
use kpt_resource_group.KeySet.{KeySet}
use kpt_resource_group.KeySet.Index.{holds, some_member}
use kpt_resource_group.Api.{NamespacedName, GroupKind, ObjMetadata, gk, named_eq, gk_eq, meta_eq}
use kpt_resource_group.ResourceMap.{
  ResourceMap, CachedStatus, has_resource, groups_of, get_status, set_status, get_resources,
}
use kpt_resource_group.ResourceMap.Links.{IsLinked, IsConsistent, included, listed, tracked}

pub contains-groups_of :
    (m : ResourceMap) (r : ObjMetadata) (g : NamespacedName)
    → contains (groups_of m r) g ≡ included m r g
unfolding groups_of contains
contains-groups_of m r g =
    elim (get m.res_to_resgroups r)
      as (λ o.
        contains (elim o [ none ↦ [] | some s ↦ KeySet.to_slice s ]) g
        ≡ (elim o [ none ↦ false | some s ↦ KeySet.member s g ])) [
          | none ↦ refl
          | some s ↦ KeySet.contains-to_slice s g
        ]

contains-get_resources :
    (m : ResourceMap) (k : GroupKind) (r : ObjMetadata)
    → contains (get_resources m k) r ≡ holds m.gk_to_resources k r
unfolding get_resources contains
contains-get_resources m k r =
    elim (get m.gk_to_resources k)
      as (λ o.
        contains (elim o [ none ↦ [] | some s ↦ KeySet.to_slice s ]) r
        ≡ (elim o [ none ↦ false | some s ↦ KeySet.member s r ])) [
          | none ↦ refl
          | some s ↦ KeySet.contains-to_slice s r
        ]

tracked→included :
    (m : ResourceMap)
    → IsLinked m
    → (r : ObjMetadata) → tracked m r ≡ true
    → (g : NamespacedName) × (included m r g ≡ true)
tracked→included m v r h = some_group (get m.res_to_resgroups r) refl h
  where
    some_group :
        (o : Option (KeySet NamespacedName))
        → get m.res_to_resgroups r ≡ o
        → is_some o ≡ true
        → (g : NamespacedName) × (included m r g ≡ true)
    some_group none e t = cc
    some_group (some s) e t =
        let (g, h) = some_member s (v.groups_full r s e) in (g, ground (arith, e, h))

-- In a consistent state HasResource answers whether some group in resgroupToResources lists the
-- resource.
pub has_resource_iff :
    (m : ResourceMap) (r : ObjMetadata)
    → IsConsistent m
    → (has_resource m r ≡ true) ↔ ((g : NamespacedName) × (listed m g r ≡ true))
unfolding has_resource
has_resource_iff m r v = (
  λ h. let (g, p) = tracked→included m v.linked r h in (g, ground (arith, v.mirrored r g)),
  λ p. ground (arith, v.mirrored r p.0, p.1),
)

-- In a consistent state Get returns the groups that list the resource, GetResources returns the
-- resources of the kind that HasResource knows.
pub contains-readers :
    (m : ResourceMap) (r : ObjMetadata)
    → IsConsistent m
    → ((g : NamespacedName) → contains (groups_of m r) g ≡ listed m g r)
      × ((k : GroupKind) → contains (get_resources m k) r ≡ (gk r == k && has_resource m r))
unfolding has_resource
contains-readers m r v = (
  λ g. ground (arith, contains-groups_of m r g, v.mirrored r g),
  λ k. ground (arith, contains-get_resources m k r, v.linked.filed_lem k r),
)

-- SetStatus changes what GetStatus answers for its resource only, and no relation.
pub get_status-set_status :
    (m : ResourceMap) (r q : ObjMetadata) (s : Option CachedStatus)
    → get_status (set_status m r s) q ≡ (if r == q then s else get_status m q)
unfolding get_status set_status
get_status-set_status m r q s = ground (arith, get-put m.res_to_status r s q)

pub set_status-IsConsistent :
    (m : ResourceMap) (r : ObjMetadata) (s : Option CachedStatus)
    → IsConsistent m
    → IsConsistent (set_status m r s)
unfolding set_status
set_status-IsConsistent m r s v = record {
  linked = record {
    filed_lem = v.linked.filed_lem;
    groups_full = v.linked.groups_full;
    kinds_full = v.linked.kinds_full;
  };
  mirrored = v.mirrored;
}

pub included-set_status :
    (m : ResourceMap) (r : ObjMetadata) (s : Option CachedStatus) (q : ObjMetadata)
    (g : NamespacedName)
    → included (set_status m r s) q g ≡ included m q g
unfolding set_status
included-set_status m r s q g = refl
