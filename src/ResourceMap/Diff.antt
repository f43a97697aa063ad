-- ===== src/ResourceMap/Diff.antt =====
-- The difference that `Reconcile` acts on.
use kpt_resource_group.Base.{
  ◌≡◌, refl, not, ◌&&◌, false, none, some, List, [], ◌∷◌, arith, contains,
}
use kpt_resource_group.GoMap.{get}
use kpt_resource_group.KeySet
use kpt_resource_group.Api.{NamespacedName, ObjMetadata, named_eq, meta_eq}
use kpt_resource_group.ResourceMap.{
  ResourceMap, ResourceSet, missing, diff_resources, old_resources,
}
use kpt_resource_group.ResourceMap.Links.{listed}

contains-missing :
    (s : ResourceSet) (rs : List ObjMetadata) (r : ObjMetadata)
    → contains (missing s rs) r ≡ (contains rs r && not (KeySet.member s r))
unfolding missing contains
contains-missing s [] r = refl
contains-missing s (q ∷ rs) r = ground (arith, contains-missing s rs r, meta_eq.equals_iff q r)

module _ (old new : List ObjMetadata) (r : ObjMetadata) where
  pub contains-to_add :
      contains (diff_resources old new).0 r ≡ (contains new r && not (contains old r))
  unfolding diff_resources
  contains-to_add =
      ground (arith, contains-missing (KeySet.new_set old) new r, KeySet.member-new_set old r)

  pub contains-to_delete :
      contains (diff_resources old new).1 r ≡ (contains old r && not (contains new r))
  unfolding diff_resources
  contains-to_delete =
      ground (arith, contains-missing (KeySet.new_set new) old r, KeySet.member-new_set new r)

pub contains-old_resources :
    (m : ResourceMap) (group : NamespacedName) (r : ObjMetadata)
    → contains (old_resources m group) r ≡ listed m group r
unfolding old_resources contains
contains-old_resources m group r =
    elim (get m.resgroup_to_resources group)
      as (λ o.
        contains (elim o [ none ↦ [] | some s ↦ KeySet.to_slice s ]) r
        ≡ (elim o [ none ↦ false | some s ↦ KeySet.member s r ])) [
          | none ↦ refl
          | some s ↦ KeySet.contains-to_slice s r
        ]
