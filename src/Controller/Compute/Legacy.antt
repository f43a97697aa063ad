-- ===== src/Controller/Compute/Legacy.antt =====
-- The statuses that computeStatus returns: one for each resource, in order, and settled.
use kpt_resource_group.Base.{◌≡◌, refl, List, [], ◌∷◌, String, arith, map, Option-cases, inl, inr}
use kpt_resource_group.GoMap.{Map, get}
use kpt_resource_group.Api.{
  NamespacedName, GroupKind, GroupVersionKind, ObjMetadata, Time, ResourceStatus, gk_eq, meta_eq,
}
use kpt_resource_group.ResourceMap.{ResourceMap}
use kpt_resource_group.Status.{Objects}
use kpt_resource_group.Controller.Resources.{set_res_status, actuation_status_to_legacy}
use kpt_resource_group.Controller.Resources.Legacy.{
  actuation_status_to_legacy_idem, actuation_status_to_legacy_none,
}
use kpt_resource_group.Controller.Compute.{
  Fetched, overlay, read_status, store_fetched, resource_status, compute_loop,
  compute_resource_list, resource_status_map,
}

-- The legacy status of every entry is what ActuationStatusToLegacy gives for it.
abbrev pub AreSettled : List ResourceStatus → Type 0
AreSettled [] = Unit {0}
AreSettled (s ∷ ss) = (actuation_status_to_legacy s ≡ s.status) × AreSettled ss

-- What is known of an entry before the overlay.
abbrev IsFresh : ObjMetadata → ResourceStatus → Type 0
IsFresh res s = (s.obj_metadata ≡ res) × (s.actuation ≡ "")

overlay_settled :
    (actuations : Map ObjMetadata ResourceStatus) (s : ResourceStatus)
    → s.actuation ≡ ""
    → actuation_status_to_legacy (overlay actuations s) ≡ (overlay actuations s).status
unfolding overlay
overlay_settled actuations s h = elim (Option-cases (get actuations s.obj_metadata)) [
  | inl e ↦ rw (e, overlay) (actuation_status_to_legacy_none s h)
  | inr (a, e) ↦ rw (e, overlay) (actuation_status_to_legacy_idem _)
]

overlay_meta :
    (actuations : Map ObjMetadata ResourceStatus) (s : ResourceStatus)
    → (overlay actuations s).obj_metadata ≡ s.obj_metadata
unfolding overlay
overlay_meta actuations s = ground arith

module _ (objects : Objects) (fetch : GroupVersionKind → NamespacedName → Fetched objects.Object)
    (types : Map GroupKind GroupVersionKind) (now : Time) (id : String) where
  resource_status-IsFresh :
      (m : ResourceMap) (res : ObjMetadata)
      → IsFresh res (resource_status objects fetch types now id m res).0
  unfolding resource_status read_status store_fetched set_res_status
  resource_status-IsFresh m res = ground arith

  loop_settled :
      (actuations : Map ObjMetadata ResourceStatus) (m : ResourceMap) (metas : List ObjMetadata)
      → AreSettled (compute_loop objects fetch types now id actuations m metas).statuses
  unfolding compute_loop
  loop_settled actuations m [] = tt
  loop_settled actuations m (res ∷ metas) =
      let (s, m') = resource_status objects fetch types now id m res in
      (
        overlay_settled actuations s (resource_status-IsFresh m res).1,
        loop_settled actuations m' metas,
      )

  loop_metas :
      (actuations : Map ObjMetadata ResourceStatus) (m : ResourceMap) (metas : List ObjMetadata)
      → map
          (λ s. s.obj_metadata)
          (compute_loop objects fetch types now id actuations m metas).statuses
        ≡ metas
  unfolding compute_loop
  loop_metas actuations m [] = refl
  loop_metas actuations m (res ∷ metas) =
      let (s, m') = resource_status objects fetch types now id m res in
      ground (
        arith,
        overlay_meta actuations s,
        resource_status-IsFresh m res,
        loop_metas actuations m' metas,
      )

  -- computeStatus returns one status for each resource of the list, in its order, and each is
  -- settled: ActuationStatusToLegacy would not change it.
  pub compute_resource_list_statuses :
      (existing : List ResourceStatus) (m : ResourceMap) (metas : List ObjMetadata)
      → (map
            (λ s. s.obj_metadata)
            (compute_resource_list objects fetch types now id existing m metas).statuses
          ≡ metas)
        × AreSettled (compute_resource_list objects fetch types now id existing m metas).statuses
  unfolding compute_resource_list
  compute_resource_list_statuses existing m metas = (
    loop_metas (resource_status_map existing) m metas,
    loop_settled (resource_status_map existing) m metas,
  )
