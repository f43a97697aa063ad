-- ===== src/ResourceMap/Link.antt =====
-- The loop of `Reconcile` over `toAdd`: it puts the pairs into the relation and nothing else.
use kpt_resource_group.Base.{
  ◌≡◌, refl, ◌∙◌, inl, inr, ◌&&◌, ◌||◌, none, some, List, [], ◌∷◌, arith, ◌==◌, contains,
  Option-cases,
}
use kpt_resource_group.GoMap.{get, put}
use kpt_resource_group.GoMap.Laws.{get-put}
use kpt_resource_group.KeySet
use kpt_resource_group.KeySet.{KeySet}
use kpt_resource_group.KeySet.Index.{
  holds, IsFull, holds-put, put-IsFull, length-add, length-new_set,
}
use kpt_resource_group.Api.{NamespacedName, GroupKind, ObjMetadata, gk, named_eq, gk_eq, meta_eq}
use kpt_resource_group.ResourceMap.{ResourceMap, file, link, link_all}
use kpt_resource_group.ResourceMap.Links.{IsLinked, included, filed, tracked}

-- What adding `group` to the resources `rs` does to the map.
pub record Adds (group : NamespacedName) (rs : List ObjMetadata) (m m' : ResourceMap) : Type 0 where
  pub linked : IsLinked m'
  pub included_lem :
      (r : ObjMetadata) (g : NamespacedName)
      → included m' r g ≡ (included m r g || contains rs r && group == g)
  pub groups_kept : m'.resgroup_to_resources ≡ m.resgroup_to_resources
  pub tracked_lem : (r : ObjMetadata) → tracked m' r ≡ (tracked m r || contains rs r)
  pub status_kept : m'.res_to_status ≡ m.res_to_status

module _ (group : NamespacedName) (m : ResourceMap) (v : IsLinked m) (res : ObjMetadata) where
  holds-file :
      (k : GroupKind) (r : ObjMetadata)
      → holds (file m res) k r ≡ (filed m k r || gk res == k && res == r)
  unfolding file contains
  holds-file k r =
      grind
        (arith, gk_eq.equals_iff (gk res) k, holds-put, KeySet.member-add, KeySet.member-new_set)

  file-IsFull : IsFull (file m res)
  unfolding file
  file-IsFull = elim (Option-cases (get m.gk_to_resources (gk res))) [
    | inl e ↦ rw (e, file) (put-IsFull _ _ _ (length-new_set res) v.kinds_full)
    | inr (kind, e) ↦ rw (e, file) (put-IsFull _ _ _ (length-add kind res) v.kinds_full)
  ]

  link_old :
      (groups : KeySet NamespacedName)
      → get m.res_to_resgroups res ≡ some groups
      → Adds group
          (res ∷ [])
          m
          (record m { res_to_resgroups = put m.res_to_resgroups res (KeySet.add groups group) })
  unfolding contains
  link_old groups found = record {
    linked = record {
      filed_lem = λ k r. ground (
        arith,
        v.filed_lem k r,
        meta_eq.equals_iff res r,
        get-put m.res_to_resgroups res (KeySet.add groups group) r,
      );
      groups_full = put-IsFull m.res_to_resgroups res _ (length-add groups group) v.groups_full;
      kinds_full = v.kinds_full;
    };
    included_lem = λ r g. ground (
      arith,
      meta_eq.equals_iff res r,
      KeySet.member-add groups group g,
      get-put m.res_to_resgroups res (KeySet.add groups group) r,
    );
    groups_kept = refl;
    tracked_lem = λ r. ground (
      arith,
      meta_eq.equals_iff res r,
      get-put m.res_to_resgroups res (KeySet.add groups group) r,
    );
    status_kept = refl;
  }

  abbrev filed_anew : ResourceMap
  filed_anew = record m {
    res_to_resgroups = put m.res_to_resgroups res (KeySet.new_set (group ∷ []));
    gk_to_resources = file m res;
  }

  link_new : get m.res_to_resgroups res ≡ none → Adds group (res ∷ []) m filed_anew
  unfolding contains
  link_new absent = record {
    linked = record {
      filed_lem = λ k r. ground (
        arith,
        v.filed_lem k r,
        meta_eq.equals_iff res r,
        holds-file k r,
        gk_eq.equals_iff (gk res) k,
        gk_eq.equals_iff (gk r) k,
        get-put m.res_to_resgroups res (KeySet.new_set (group ∷ [])) r,
      );
      groups_full = put-IsFull m.res_to_resgroups res _ (length-new_set group) v.groups_full;
      kinds_full = file-IsFull;
    };
    included_lem = λ r g. ground (
      arith,
      meta_eq.equals_iff res r,
      KeySet.member-new_set (group ∷ []) g,
      get-put m.res_to_resgroups res (KeySet.new_set (group ∷ [])) r,
    );
    groups_kept = refl;
    tracked_lem = λ r. ground (
      arith,
      meta_eq.equals_iff res r,
      get-put m.res_to_resgroups res (KeySet.new_set (group ∷ [])) r,
    );
    status_kept = refl;
  }

  link-Adds : Adds group (res ∷ []) m (link group m res)
  unfolding link
  link-Adds = elim (Option-cases (get m.res_to_resgroups res)) [
    | inl e ↦ rw (e, link) (link_new e)
    | inr (groups, e) ↦ rw (e, link) (link_old groups e)
  ]

Adds-none : (group : NamespacedName) (m : ResourceMap) → IsLinked m → Adds group [] m m
unfolding contains
Adds-none group m v = record {
  linked = v;
  included_lem = λ r g. ground arith;
  groups_kept = refl;
  tracked_lem = λ r. ground arith;
  status_kept = refl;
}

Adds-cons :
    (group : NamespacedName) (r : ObjMetadata) (rs : List ObjMetadata) (m m' m'' : ResourceMap)
    → Adds group (r ∷ []) m m'
    → Adds group rs m' m''
    → Adds group (r ∷ rs) m m''
unfolding contains
Adds-cons group r rs m m' m'' u w = record {
  linked = w.linked;
  included_lem = λ q g. ground (arith, u.included_lem q g, w.included_lem q g);
  groups_kept = w.groups_kept ∙ u.groups_kept;
  tracked_lem = λ q. ground (arith, u.tracked_lem q, w.tracked_lem q);
  status_kept = w.status_kept ∙ u.status_kept;
}

pub link_all-Adds :
    (group : NamespacedName) (m : ResourceMap) (rs : List ObjMetadata)
    → IsLinked m
    → Adds group rs m (link_all group m rs)
unfolding link_all
link_all-Adds group m [] v = Adds-none group m v
link_all-Adds group m (r ∷ rs) v =
    let u = link-Adds group m v r in
    Adds-cons group r rs m (link group m r) _ u (link_all-Adds group (link group m r) rs u.linked)
