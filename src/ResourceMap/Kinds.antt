-- ===== src/ResourceMap/Kinds.antt =====
-- The group kinds that `Reconcile` returns, which decide what is watched.
use kpt_resource_group.Base.{
  ◌≡◌, ◌↔◌, Bool, true, ◌||◌, some, List, [], ◌∷◌, arith, ◌==◌, contains, map, IsDistinct, eq_of_==,
  ==_refl, Bool-cases, inl, inr, >>=-eq-some, eq_of_some-eq, if◌then◌else◌,
}
use mathlib.Core.Path.{subst}
use kpt_resource_group.GoMap.{has, keys}
use kpt_resource_group.GoMap.Laws.{contains-keys, put-IsDistinct}
use kpt_resource_group.KeySet
use kpt_resource_group.KeySet.{KeySet}
use kpt_resource_group.Api.{NamespacedName, GroupKind, ObjMetadata, gk, gk_eq, meta_eq}
use kpt_resource_group.ResourceMap.{
  ResourceMap, Reconciled, kinds_of, finish, has_resource, reconcile, link_all, unlink_all,
  old_resources, diff_resources,
}

contains-kinds_of :
    (rs : List ObjMetadata) (s : KeySet GroupKind) (k : GroupKind)
    → KeySet.member (kinds_of rs s) k ≡ (KeySet.member s k || contains (map gk rs) k)
unfolding kinds_of contains
contains-kinds_of [] s k = ground arith
contains-kinds_of (r ∷ rs) s k =
    ground (arith, contains-kinds_of rs (KeySet.add s (gk r)) k, KeySet.member-add s (gk r) k)

of_contains-map :
    (rs : List ObjMetadata) (k : GroupKind)
    → contains (map gk rs) k ≡ true
    → (r : ObjMetadata) × (contains rs r ≡ true) × (gk r ≡ k)
unfolding contains
of_contains-map [] k h = cc
of_contains-map (r ∷ rs) k h = elim (Bool-cases (gk r == k)) [
  | inl e ↦ (r, ground (arith, ==_refl r), eq_of_== (gk r) k e)
  | inr e ↦ let (q, p, e') = of_contains-map rs k (ground arith) in (q, ground arith, e')
]

contains-map :
    (rs : List ObjMetadata) (r : ObjMetadata)
    → contains rs r ≡ true
    → contains (map gk rs) (gk r) ≡ true
unfolding contains
contains-map [] r h = cc
contains-map (q ∷ rs) r h =
    ground (arith, contains-map rs r, meta_eq.equals_iff q r, ==_refl (gk r))

kinds_of-IsDistinct :
    (rs : List ObjMetadata) (s : KeySet GroupKind)
    → IsDistinct (keys s.entries)
    → IsDistinct (keys (kinds_of rs s).entries)
unfolding kinds_of KeySet.add
kinds_of-IsDistinct [] s d = d
kinds_of-IsDistinct (r ∷ rs) s d =
    kinds_of-IsDistinct rs (KeySet.add s (gk r)) (put-IsDistinct s.entries (gk r) tt d)

contains-slice :
    (rs : List ObjMetadata) (k : GroupKind)
    → contains (KeySet.to_slice (kinds_of rs (KeySet.new_set []))) k ≡ contains (map gk rs) k
unfolding contains
contains-slice rs k = ground (
  arith,
  KeySet.contains-to_slice (kinds_of rs (KeySet.new_set [])) k,
  contains-kinds_of rs (KeySet.new_set []) k,
  KeySet.member-new_set {K = GroupKind} [] k,
)

module _ (group : NamespacedName) (resources : List ObjMetadata) (delete_rg : Bool)
    (m : ResourceMap) where
  abbrev result : Reconciled
  result = finish group resources delete_rg m

  group_kinds-finish :
      (k : GroupKind)
      → (contains result.group_kinds k ≡ true)
        ↔ ((r : ObjMetadata) × (has_resource result.resource_map r ≡ true) × (gk r ≡ k))
  unfolding finish has_resource
  group_kinds-finish k = (
    λ h.
        let (r, p, e) =
          of_contains-map (keys m.res_to_resgroups) k
            (ground (arith, h, contains-slice (keys m.res_to_resgroups) k)) in
        (r, ground (arith, p, contains-keys m.res_to_resgroups r), e),
    λ p. tracked_kind p.0 p.1 p.2,
  )
    where
      tracked_kind :
          (r : ObjMetadata)
          → has m.res_to_resgroups r ≡ true
          → gk r ≡ k
          → contains (KeySet.to_slice (kinds_of (keys m.res_to_resgroups) (KeySet.new_set []))) k
            ≡ true
      tracked_kind r h e = ground (
        arith,
        contains-slice (keys m.res_to_resgroups) k,
        contains-map (keys m.res_to_resgroups) r,
        contains-keys m.res_to_resgroups r,
      )

  group_kinds-IsDistinct : IsDistinct result.group_kinds
  unfolding finish KeySet.to_slice KeySet.new_set KeySet.add_all
  group_kinds-IsDistinct = kinds_of-IsDistinct (keys m.res_to_resgroups) (KeySet.new_set []) tt

-- The slice has each group kind once, and just the kinds of the resources that are tracked.
pub record ListsKinds (out : Reconciled) : Type 0 where
  pub distinct : IsDistinct out.group_kinds
  pub kinds_iff :
      (k : GroupKind)
      → (contains out.group_kinds k ≡ true)
        ↔ ((r : ObjMetadata) × (has_resource out.resource_map r ≡ true) × (gk r ≡ k))

-- Whenever Reconcile returns, its slice has each group kind once, and has a kind just when some
-- resource of that kind is in the map afterwards.
pub reconcile-ListsKinds :
    (m : ResourceMap) (group : NamespacedName) (resources : List ObjMetadata) (delete_rg : Bool)
    (out : Reconciled)
    → reconcile m group resources delete_rg ≡ some out
    → ListsKinds out
unfolding reconcile
reconcile-ListsKinds m group resources delete_rg out h =
    let resources' = if delete_rg then [] else resources in
    let diff = diff_resources (old_resources m group) resources' in
    let after =
      λ (m' : ResourceMap). finish group resources' delete_rg (link_all group m' diff.0) in
    let (m', q, p) = >>=-eq-some (unlink_all group m diff.1) (λ m'. some (after m')) h in
    subst ListsKinds (eq_of_some-eq p) (record {
      distinct = group_kinds-IsDistinct group resources' delete_rg (link_all group m' diff.0);
      kinds_iff = group_kinds-finish group resources' delete_rg (link_all group m' diff.0);
    })
