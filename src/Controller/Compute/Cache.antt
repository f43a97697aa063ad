-- ===== src/Controller/Compute/Cache.antt =====
-- What computeStatus does to the resource map: it fills the cache, and touches no relation.
use kpt_resource_group.Base.{
  ◌≡◌, refl, false, none, some, List, [], ◌∷◌, String, arith, Option-cases, contains, inl, inr,
}
use kpt_resource_group.GoMap.{Map, get}
use kpt_resource_group.Api.{
  NamespacedName, GroupKind, GroupVersionKind, ObjMetadata, Time, ResourceStatus, gk, gk_eq,
  meta_eq, named_eq,
}
use kpt_resource_group.ResourceMap.{ResourceMap, CachedStatus, get_status, set_status}
use kpt_resource_group.ResourceMap.Queries.{get_status-set_status}
use kpt_resource_group.Status.{Objects, compute_status}
use kpt_resource_group.Controller.Compute.{
  Fetched, found, failure, read_status, store_fetched, resource_status, compute_loop,
  compute_resource_list, resource_status_map,
}

-- What the loop may do to the map.
pub record Caches (metas : List ObjMetadata) (m m' : ResourceMap) : Type 0 where
  pub kept_status :
      (r : ObjMetadata) (c : CachedStatus) → get_status m r ≡ some c → get_status m' r ≡ some c
  pub others_kept : (r : ObjMetadata) → contains metas r ≡ false → get_status m' r ≡ get_status m r
  pub relation_kept : m' ≡ record m { res_to_status = m'.res_to_status }

Caches-none : (m : ResourceMap) → Caches [] m m
Caches-none m = record { kept_status = λ r c h. h; others_kept = λ r h. refl; relation_kept = refl }

Caches-cons :
    (r : ObjMetadata) (rs : List ObjMetadata) (m m' m'' : ResourceMap)
    → Caches (r ∷ []) m m'
    → Caches rs m' m''
    → Caches (r ∷ rs) m m''
unfolding contains
Caches-cons r rs m m' m'' u w = record {
  kept_status = λ q c h. w.kept_status q c (u.kept_status q c h);
  others_kept = λ q h. ground (arith, u.others_kept q, w.others_kept q);
  relation_kept = ground (arith, u.relation_kept, w.relation_kept);
}

set_status-Caches :
    (m : ResourceMap) (r : ObjMetadata) (c : CachedStatus)
    → get_status m r ≡ none
    → Caches (r ∷ []) m (set_status m r (some c))
unfolding contains
set_status-Caches m r c h = record {
  kept_status =
      λ q d e. ground (arith, get_status-set_status m r q (some c), meta_eq.equals_iff r q);
  others_kept = λ q e. ground (arith, get_status-set_status m r q (some c));
  relation_kept = unfold set_status in refl;
}

Caches-same : (m : ResourceMap) (r : ObjMetadata) → Caches (r ∷ []) m m
Caches-same m r = record {
  kept_status = λ q c h. h;
  others_kept = λ q h. refl;
  relation_kept = refl;
}

module _ (objects : Objects) (fetch : GroupVersionKind → NamespacedName → Fetched objects.Object)
    (types : Map GroupKind GroupVersionKind) (now : Time) (id : String) where
  store_fetched-Caches :
      (m : ResourceMap) (res : ObjMetadata) (f : Fetched objects.Object)
      → get_status m res ≡ none
      → Caches (res ∷ []) m (store_fetched objects fetch types now id m res f).1
  unfolding store_fetched
  store_fetched-Caches m res (failure e) h = Caches-same m res
  store_fetched-Caches m res (found obj) h =
      set_status-Caches m res (compute_status objects now obj) h

  read_status-Caches :
      (m : ResourceMap) (res : ObjMetadata)
      → get_status m res ≡ none
      → Caches (res ∷ []) m (read_status objects fetch types now id m res).1
  unfolding read_status
  read_status-Caches m res h = elim (Option-cases (get types (gk res))) [
    | inl e ↦ rw (e, read_status) (Caches-same m res)
    | inr (gvk, e) ↦ rw (e, read_status) (store_fetched-Caches m res (fetch gvk _) h)
  ]

  resource_status-Caches :
      (m : ResourceMap) (res : ObjMetadata)
      → Caches (res ∷ []) m (resource_status objects fetch types now id m res).1
  unfolding resource_status
  resource_status-Caches m res = elim (Option-cases (get_status m res)) [
    | inl e ↦ rw (e, resource_status) (read_status-Caches m res e)
    | inr (c, e) ↦ rw (e, resource_status) (Caches-same m res)
  ]

  loop-Caches :
      (actuations : Map ObjMetadata ResourceStatus) (metas : List ObjMetadata) (m : ResourceMap)
      → Caches metas m (compute_loop objects fetch types now id actuations m metas).resource_map
  unfolding compute_loop
  loop-Caches actuations [] m = Caches-none m
  loop-Caches actuations (res ∷ metas) m =
      let (s, m') = resource_status objects fetch types now id m res in
      Caches-cons res metas m m' _ (resource_status-Caches m res) (loop-Caches actuations metas m')

  -- computeStatus leaves the three relation maps as they were, keeps every
  -- status that was cached, and writes to the cache for listed resources only.
  pub compute_resource_list-Caches :
      (existing : List ResourceStatus) (m : ResourceMap) (metas : List ObjMetadata)
      → Caches metas m
          (compute_resource_list objects fetch types now id existing m metas).resource_map
  unfolding compute_resource_list
  compute_resource_list-Caches existing m metas = loop-Caches (resource_status_map existing) metas m
