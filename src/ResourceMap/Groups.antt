-- ===== src/ResourceMap/Groups.antt =====
-- `Reconcile` as a whole: it never panics, keeps the invariant, and replaces the resources of its
-- group in the relation.
use kpt_resource_group.Base.{
  ◌≡◌, ap, ◌∙◌, Bool, not, ◌&&◌, none, some, List, [], arith, ◌==◌, contains, if◌then◌else◌, nat_eq,
}
use kpt_resource_group.GoMap.{get, has}
use kpt_resource_group.GoMap.Laws.{has-put, has-delete}
use kpt_resource_group.KeySet
use kpt_resource_group.KeySet.{KeySet}
use kpt_resource_group.KeySet.Index.{holds-put, holds-delete}
use kpt_resource_group.Api.{NamespacedName, ObjMetadata, named_eq, gk_eq, meta_eq}
use kpt_resource_group.ResourceMap.{
  ResourceMap, Reconciled, has_resgroup, reconcile, finish, link_all, diff_resources, old_resources,
}
use kpt_resource_group.ResourceMap.Links.{IsLinked, IsConsistent, included, listed, tracked}
use kpt_resource_group.ResourceMap.Diff.{
  contains-to_add, contains-to_delete, contains-old_resources,
}
use kpt_resource_group.ResourceMap.Unlink.{Unlinks, unlink_all-Unlinks}
use kpt_resource_group.ResourceMap.Link.{Adds, link_all-Adds}

-- The resources that the call gives the group: none for a group that is deleted.
abbrev pub requested : List ObjMetadata → Bool → List ObjMetadata
requested resources delete_rg = if delete_rg then [] else resources

module _ (group : NamespacedName) (resources : List ObjMetadata) (delete_rg : Bool) where
  abbrev finished : ResourceMap → Reconciled
  finished = finish group (requested resources delete_rg) delete_rg

  listed-finish :
      (m : ResourceMap) (g : NamespacedName) (r : ObjMetadata)
      → listed (finished m).resource_map g r
        ≡ (if group == g then contains (requested resources delete_rg) r else listed m g r)
  unfolding finish contains
  listed-finish m g r = ground (
    arith,
    named_eq.equals_iff group g,
    holds-delete m.resgroup_to_resources group g r,
    holds-put m.resgroup_to_resources group (KeySet.new_set (requested resources delete_rg)) g r,
    KeySet.member-new_set (requested resources delete_rg) r,
  )

  has_resgroup-finish :
      (m : ResourceMap) (g : NamespacedName)
      → has_resgroup (finished m).resource_map g
        ≡ (if group == g then not delete_rg else has_resgroup m g)
  unfolding finish has_resgroup
  has_resgroup-finish m g = ground (
    arith,
    has-delete m.resgroup_to_resources group g,
    has-put m.resgroup_to_resources group (KeySet.new_set (requested resources delete_rg)) g,
  )

  IsLinked-finish : (m : ResourceMap) → IsLinked m → IsLinked (finished m).resource_map
  unfolding finish
  IsLinked-finish m v = record {
    filed_lem = v.filed_lem;
    groups_full = v.groups_full;
    kinds_full = v.kinds_full;
  }

  -- What a call does to the map.
  pub record Reconciles (m : ResourceMap) (out : Reconciled) : Type 0 where
    pub consistent : IsConsistent out.resource_map
    pub included_lem :
        (r : ObjMetadata) (g : NamespacedName)
        → included out.resource_map r g
          ≡ (if group == g then contains (requested resources delete_rg) r else included m r g)
    pub status_lem :
        (r : ObjMetadata)
        → get out.resource_map.res_to_status r ≡ (
            if tracked m r && not (tracked out.resource_map r) then none else get m.res_to_status r)
    pub resgroups_lem :
        (g : NamespacedName)
        → has_resgroup out.resource_map g ≡ (if group == g then not delete_rg else has_resgroup m g)

  module _ (m : ResourceMap) (v : IsConsistent m) where
    abbrev diff : List ObjMetadata × List ObjMetadata
    diff = diff_resources (old_resources m group) (requested resources delete_rg)

    module _ (m' : ResourceMap) (u : Unlinks group diff.1 m m')
        (w : Adds group diff.0 m' (link_all group m' diff.0)) where
      abbrev linked_map : ResourceMap
      linked_map = link_all group m' diff.0

      included_after :
          (r : ObjMetadata) (g : NamespacedName)
          → included linked_map r g
            ≡ (if group == g then contains (requested resources delete_rg) r else included m r g)
      included_after r g = ground (
        arith,
        named_eq.equals_iff group g,
        w.included_lem r g,
        u.included_lem r g,
        v.mirrored r g,
        contains-to_add (old_resources m group) (requested resources delete_rg) r,
        contains-to_delete (old_resources m group) (requested resources delete_rg) r,
        contains-old_resources m group r,
      )

      status_after :
          (r : ObjMetadata)
          → get linked_map.res_to_status r
            ≡ (if tracked m r && not (tracked linked_map r) then none else get m.res_to_status r)
      status_after r = ground (
        arith,
        w.status_kept,
        w.tracked_lem r,
        u.status_kept r,
        u.untouched r,
        contains-to_add (old_resources m group) (requested resources delete_rg) r,
        contains-to_delete (old_resources m group) (requested resources delete_rg) r,
      )

      resgroups_kept : (g : NamespacedName) → has_resgroup linked_map g ≡ has_resgroup m g
      unfolding has_resgroup
      resgroups_kept g = ap (λ t. has t g) (w.groups_kept ∙ u.groups_kept)

      reconciled : Reconciles m (finished linked_map)
      unfolding finish
      reconciled = record {
        consistent = record {
          linked = IsLinked-finish linked_map w.linked;
          mirrored = λ r g. ground (
            arith,
            included_after r g,
            listed-finish linked_map g r,
            v.mirrored r g,
            w.groups_kept,
            u.groups_kept,
          );
        };
        included_lem = included_after;
        status_lem = status_after;
        resgroups_lem = λ g. ground (arith, has_resgroup-finish linked_map g, resgroups_kept g);
      }

    -- From a consistent state Reconcile never panics and keeps the state consistent: the group includes
    -- just the resources of the call, every other group what it included before, the group has an entry of
    -- its own just when the call does not delete it, and a cached status
    -- is dropped just when its resource was in a group before and is in none any more.
    pub reconcile-Reconciles :
        (out : Reconciled) × (reconcile m group resources delete_rg ≡ some out) × Reconciles m out
    unfolding reconcile
    reconcile-Reconciles =
        let (m', e, u) = unlink_all-Unlinks group m diff.1 v.linked in
        let w = link_all-Adds group m' diff.0 u.linked in
        (finished (link_all group m' diff.0), rw e, reconciled m' u w)
