-- ===== src/ResourceMap/View.antt =====
-- What a caller can see of the map: the relation and the statuses, not the order of the entries. Go
-- leaves the order of its maps open, so no result may depend on it.
pub mod Repeat
use kpt_resource_group.Base.{
  ◌≡◌, refl, sym, ap, ◌∙◌, ◌↔◌, Bool, true, false, not, ◌&&◌, ◌||◌, Option, none, some, List, [],
  ◌∷◌, arith, contains, ◌==◌, if◌then◌else◌, Bool-cases, inl, inr, bool_ext, nat_eq,
}
use kpt_resource_group.GoMap.{get, size}
use kpt_resource_group.GoMap.Laws.{same_nil}
use kpt_resource_group.Api.{NamespacedName, GroupKind, ObjMetadata, gk, named_eq, gk_eq, meta_eq}
use kpt_resource_group.ResourceMap.{
  ResourceMap, Reconciled, reconcile, map_is_empty, has_resgroup, has_resource, get_status,
  groups_of, get_resources,
}
use kpt_resource_group.ResourceMap.Links.{IsConsistent, listed, included, tracked}
use kpt_resource_group.ResourceMap.Groups.{Reconciles, reconcile-Reconciles, requested}
use kpt_resource_group.ResourceMap.Queries.{has_resource_iff}
use kpt_resource_group.ResourceMap.Kinds.{ListsKinds, reconcile-ListsKinds}

-- Two maps with the same relation, the same groups and the same statuses, in any order of the entries.
pub record SameView (m m' : ResourceMap) : Type 0 where
  pub same_listed : (g : NamespacedName) (r : ObjMetadata) → listed m g r ≡ listed m' g r
  pub same_resgroups : (g : NamespacedName) → has_resgroup m g ≡ has_resgroup m' g
  pub same_status : (r : ObjMetadata) → get_status m r ≡ get_status m' r

-- The resources that are tracked are part of the view.
pub same_tracked :
    (m m' : ResourceMap) (r : ObjMetadata)
    → IsConsistent m
    → IsConsistent m'
    → ((g : NamespacedName) → listed m g r ≡ listed m' g r)
    → has_resource m r ≡ has_resource m' r
same_tracked m m' r v v' same =
    bool_ext (has_resource m r) (has_resource m' r)
      (λ h.
        let (g, p) = (has_resource_iff m r v).0 h in
        (has_resource_iff m' r v').1 (g, sym (same g) ∙ p))
      (λ h.
        let (g, p) = (has_resource_iff m' r v').0 h in (has_resource_iff m r v).1 (g, same g ∙ p))

-- Whether the map is empty is part of the view.
same_is_empty :
    (m m' : ResourceMap)
    → IsConsistent m
    → IsConsistent m'
    → SameView m m'
    → map_is_empty m ≡ map_is_empty m'
unfolding map_is_empty has_resgroup has_resource
same_is_empty m m' v v' s =
    let groups = same_nil m.resgroup_to_resources m'.resgroup_to_resources s.same_resgroups in
    let resources =
      same_nil m.res_to_resgroups m'.res_to_resgroups
        (λ r. same_tracked m m' r v v' (λ g. s.same_listed g r)) in
    ground (arith, groups, resources)

module _ (group : NamespacedName) (resources : List ObjMetadata) (delete_rg : Bool) where
  -- the relation after a call, by the listings
  pub listed_after :
      (m : ResourceMap) (out : Reconciled) (g : NamespacedName) (r : ObjMetadata)
      → IsConsistent m
      → Reconciles group resources delete_rg m out
      → listed out.resource_map g r
        ≡ (if group == g then contains (requested resources delete_rg) r else listed m g r)
  listed_after m out g r v w =
      ground (arith, w.included_lem r g, w.consistent.mirrored r g, v.mirrored r g)

  pub status_after :
      (m : ResourceMap) (out : Reconciled) (r : ObjMetadata)
      → Reconciles group resources delete_rg m out
      → get_status out.resource_map r ≡ (
          if has_resource m r && not (has_resource out.resource_map r)
          then none
          else get_status m r)
  unfolding get_status has_resource
  status_after m out r w = ground (arith, w.status_lem r)

  -- On two consistent maps with the same relation, groups and statuses, whatever the order of their
  -- entries, Reconcile returns without a panic, makes two that again have the same of each and of which
  -- both are empty or none is, and returns slices with the same group kinds.
  pub reconcile-SameView :
      (m m' : ResourceMap)
      → IsConsistent m
      → IsConsistent m'
      → SameView m m'
      → (out : Reconciled) × (out' : Reconciled) × (reconcile m group resources delete_rg
          ≡ some out)
        × (reconcile m' group resources delete_rg ≡ some out')
        × SameView out.resource_map out'.resource_map
        × (map_is_empty out.resource_map ≡ map_is_empty out'.resource_map)
        × ((k : GroupKind) → contains out.group_kinds k ≡ contains out'.group_kinds k)
  reconcile-SameView m m' v v' s =
      let (out, e, w) = reconcile-Reconciles group resources delete_rg m v in
      let (out', e', w') = reconcile-Reconciles group resources delete_rg m' v' in
      (
        out,
        out',
        e,
        e',
        viewed out out' w w',
        same_is_empty out.resource_map out'.resource_map w.consistent w'.consistent
            (viewed out out' w w'),
        λ k.
            kinds out out' w w' (reconcile-ListsKinds m group resources delete_rg out e)
              (reconcile-ListsKinds m' group resources delete_rg out' e') k,
      )
    where
      same_after :
          (out out' : Reconciled)
          → Reconciles group resources delete_rg m out
          → Reconciles group resources delete_rg m' out'
          → (g : NamespacedName) (r : ObjMetadata)
          → listed out.resource_map g r ≡ listed out'.resource_map g r
      same_after out out' w w' g r =
          ground
            (arith, listed_after m out g r v w, listed_after m' out' g r v' w', s.same_listed g r)

      tracked_after :
          (out out' : Reconciled)
          → Reconciles group resources delete_rg m out
          → Reconciles group resources delete_rg m' out'
          → (r : ObjMetadata) → has_resource out.resource_map r ≡ has_resource out'.resource_map r
      tracked_after out out' w w' r =
          same_tracked out.resource_map out'.resource_map r w.consistent w'.consistent
            (λ g. same_after out out' w w' g r)

      viewed :
          (out out' : Reconciled)
          → Reconciles group resources delete_rg m out
          → Reconciles group resources delete_rg m' out'
          → SameView out.resource_map out'.resource_map
      viewed out out' w w' = record {
        same_listed = same_after out out' w w';
        same_resgroups =
            λ g. ground (arith, w.resgroups_lem g, w'.resgroups_lem g, s.same_resgroups g);
        same_status = λ r. ground (
          arith,
          status_after m out r w,
          status_after m' out' r w',
          s.same_status r,
          tracked_after out out' w w' r,
          same_tracked m m' r v v' (λ g. s.same_listed g r),
        );
      }

      kinds :
          (out out' : Reconciled)
          → Reconciles group resources delete_rg m out
          → Reconciles group resources delete_rg m' out'
          → ListsKinds out
          → ListsKinds out'
          → (k : GroupKind) → contains out.group_kinds k ≡ contains out'.group_kinds k
      kinds out out' w w' l l' k =
          bool_ext (contains out.group_kinds k) (contains out'.group_kinds k)
            (λ h.
              let (r, t, e) = (l.kinds_iff k).0 h in
              (l'.kinds_iff k).1 (r, sym (tracked_after out out' w w' r) ∙ t, e))
            (λ h.
              let (r, t, e) = (l'.kinds_iff k).0 h in
              (l.kinds_iff k).1 (r, tracked_after out out' w w' r ∙ t, e))
