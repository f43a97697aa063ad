-- ===== src/Status/Laws.antt =====
-- What ComputeStatus stores, whatever the libraries answer.
use text.Mathlib.TextEquality.{eq_iff}
use kpt_resource_group.Base.{◌≡◌, refl, ◌≢◌, ◌⊎◌, true, Option, none, some, [], arith, string_eq}
use kpt_resource_group.Api.{Time, failed, current}
use kpt_resource_group.ResourceMap.{CachedStatus}
use kpt_resource_group.Status.{
  Objects, KstatusResult, compute_status, cached_conditions, is_cnrm_resource,
}

module _ (objects : Objects) (now : Time) (obj : objects.Object) where
  open objects use {compute, group_version_kind, annotations}

  abbrev cached : CachedStatus
  cached = compute_status objects now obj

  cached_conditions_lem :
      (result : KstatusResult)
      → cached_conditions objects now obj result ≢ []
      → (result.status ≡ failed)
        ⊎ ((is_cnrm_resource (group_version_kind obj).group ≡ true) × (result.status ≢ current))
  unfolding cached_conditions
  cached_conditions_lem result h =
      ground (arith, eq_iff result.status failed, eq_iff result.status current)

  -- ComputeStatus keeps conditions only for an object whose status is Failed, and for a Config
  -- Connector object whose status is not Current.
  pub compute_status_conditions :
      cached.conditions ≢ []
      → (cached.status ≡ failed)
        ⊎ ((is_cnrm_resource (group_version_kind obj).group ≡ true) × (cached.status ≢ current))
  unfolding compute_status
  compute_status_conditions = computed (compute obj) refl
    where
      computed :
          (o : Option (Option KstatusResult))
          → compute obj ≡ o
          → cached.conditions ≢ []
          → (cached.status ≡ failed)
            ⊎ ((is_cnrm_resource (group_version_kind obj).group ≡ true) × (cached.status ≢ current))
      computed none e h = absurd (h (rw (e, compute_status)))
      computed (some none) e h = absurd (h (rw (e, compute_status)))
      computed (some (some result)) e h = ground (arith, e, cached_conditions_lem result)
