-- ===== src/ResourceMap/View/Repeat.antt =====
-- A call of Reconcile that is repeated, and one that is taken back.
use kpt_resource_group.Base.{
  bool_ext, ◌≡◌, sym, Bool, true, false, not, ◌&&◌, ◌||◌, none, some, List, [], arith, contains,
  ◌==◌, if◌then◌else◌, Bool-cases, inl, inr, ==_refl,
}
use kpt_resource_group.Api.{NamespacedName, ObjMetadata, named_eq, gk_eq, meta_eq}
use kpt_resource_group.ResourceMap.{ResourceMap, Reconciled, reconcile, has_resource, get_status}
use kpt_resource_group.ResourceMap.Links.{IsConsistent, listed}
use kpt_resource_group.ResourceMap.Groups.{Reconciles, reconcile-Reconciles}
use kpt_resource_group.ResourceMap.Queries.{has_resource_iff}
use kpt_resource_group.ResourceMap.View.{SameView, same_tracked, listed_after, status_after}

module _ (group : NamespacedName) (resources : List ObjMetadata) (m : ResourceMap)
    (v : IsConsistent m) where
  -- What the call gives the group is what it finds there when it comes again.
  again_listed :
      (delete_rg : Bool) (out out' : Reconciled) (g : NamespacedName) (r : ObjMetadata)
      → Reconciles group resources delete_rg m out
      → Reconciles group resources delete_rg out.resource_map out'
      → listed out.resource_map g r ≡ listed out'.resource_map g r
  again_listed delete_rg out out' g r w w' = ground (
    arith,
    listed_after group resources delete_rg m out g r v w,
    listed_after group resources delete_rg out.resource_map out' g r w.consistent w',
  )

  -- Reconcile called again with the same arguments changes nothing that can be seen.
  pub reconcile_again :
      (delete_rg : Bool)
      → (out : Reconciled) × (out' : Reconciled) × (reconcile m group resources delete_rg
          ≡ some out)
        × (reconcile out.resource_map group resources delete_rg ≡ some out')
        × SameView out.resource_map out'.resource_map
  reconcile_again delete_rg =
      let (out, e, w) = reconcile-Reconciles group resources delete_rg m v in
      let (out', e', w') =
        reconcile-Reconciles group resources delete_rg out.resource_map w.consistent in
      let same =
        λ (g : NamespacedName) (r : ObjMetadata). again_listed delete_rg out out' g r w w' in
      (
        out,
        out',
        e,
        e',
        record {
          same_listed = same;
          same_resgroups = λ g. ground (arith, w.resgroups_lem g, w'.resgroups_lem g);
          same_status = λ r. ground (
            arith,
            status_after group resources delete_rg out.resource_map out' r w',
            same_tracked out.resource_map out'.resource_map r w.consistent w'.consistent
                (λ g. same g r),
          );
        },
      )

  module _ (fresh : (r : ObjMetadata) → listed m group r ≡ false) (out : Reconciled)
      (w : Reconciles group resources false m out) where
    -- The tracked resources are now those that were tracked and those of the group.
    tracked_added :
        (r : ObjMetadata)
        → has_resource out.resource_map r ≡ (contains resources r || has_resource m r)
    tracked_added r =
        bool_ext (has_resource out.resource_map r) (contains resources r || has_resource m r)
          old_or_new new_or_old
      where
        old_or_new :
            has_resource out.resource_map r ≡ true
            → (contains resources r || has_resource m r) ≡ true
        old_or_new t =
            let (g, p) = (has_resource_iff out.resource_map r w.consistent).0 t in
            elim (Bool-cases (group == g)) [
              | inl q ↦ ground (arith, listed_after group resources false m out g r v w, q, p)
              | inr q ↦
                  let t' =
                    (has_resource_iff m r v).1
                      (g, ground (arith, listed_after group resources false m out g r v w, q, p)) in
                  ground (arith, t')
            ]

        new_or_old :
            (contains resources r || has_resource m r) ≡ true
            → has_resource out.resource_map r ≡ true
        new_or_old t = elim (Bool-cases (contains resources r)) [
          | inl c ↦ (has_resource_iff out.resource_map r w.consistent).1 (
            group,
            ground (arith, listed_after group resources false m out group r v w, ==_refl group, c),
          )
          | inr c ↦
              let (g, p) = (has_resource_iff m r v).0 (ground (arith, t, c)) in
              (has_resource_iff out.resource_map r w.consistent).1 (
                g,
                ground (
                  arith,
                  listed_after group resources false m out g r v w,
                  named_eq.equals_iff group g,
                  fresh r,
                  p,
                ),
              )
        ]

    module _ (out' : Reconciled) (w' : Reconciles group [] true out.resource_map out') where
      back_listed :
          (g : NamespacedName) (r : ObjMetadata) → listed out'.resource_map g r ≡ listed m g r
      unfolding contains
      back_listed g r = ground (
        arith,
        named_eq.equals_iff group g,
        fresh r,
        listed_after group resources false m out g r v w,
        listed_after group [] true out.resource_map out' g r w.consistent w',
      )

      back_status :
          (r : ObjMetadata)
          → get_status out'.resource_map r
            ≡ (if contains resources r && not (has_resource m r) then none else get_status m r)
      back_status r = ground (
        arith,
        status_after group resources false m out r w,
        status_after group [] true out.resource_map out' r w',
        same_tracked m out'.resource_map r v w'.consistent (λ g. sym (back_listed g r)),
        tracked_added r,
      )

  -- A group that had no resource, is given some and then is deleted leaves the relation of a
  -- consistent map as it was; of the cached statuses just those are dropped that belong to its
  -- resources which no other group includes.
  pub reconcile_taken_back :
      ((r : ObjMetadata) → listed m group r ≡ false)
      → (out : Reconciled) × (out' : Reconciled) × (reconcile m group resources false ≡ some out)
        × (reconcile out.resource_map group [] true ≡ some out')
        × ((g : NamespacedName) (r : ObjMetadata) → listed out'.resource_map g r ≡ listed m g r)
        × ((r : ObjMetadata)
            → get_status out'.resource_map r
              ≡ (if contains resources r && not (has_resource m r) then none else get_status m r))
  reconcile_taken_back fresh =
      let (out, e, w) = reconcile-Reconciles group resources false m v in
      let (out', e', w') = reconcile-Reconciles group [] true out.resource_map w.consistent in
      (out, out', e, e', back_listed fresh out w out' w', back_status fresh out w out' w')
