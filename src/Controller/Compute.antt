-- ===== src/Controller/Compute.antt =====
-- computeStatus of resourcegroup_controller.go: the statuses of a list of resources, from the cache
-- or else from the API server. The server is read through `fetch`, which answers for one call of
-- computeStatus, as if the server did not change meanwhile, and no other call sets a status between; the
-- type resolver and the clock are arguments too.
pub mod Legacy
pub mod Cache
pub mod Reference
use kpt_resource_group.Base.{
  Bool, true, false, not, ◌&&◌, ◌||◌, Option, none, some, List, [], ◌∷◌, String, if◌then◌else◌,
  ◌==◌, string_eq,
}
use kpt_resource_group.GoMap.{Map, get, put}
use kpt_resource_group.Api.{
  NamespacedName, GroupKind, GroupVersionKind, ObjMetadata, Time, ResourceStatus, Status, failed,
  current, not_found, unknown, gk, gk_eq, meta_eq,
}
use kpt_resource_group.ResourceMap.{ResourceMap, CachedStatus, get_status, set_status}
use kpt_resource_group.Status.{Objects, compute_status, is_cnrm_resource}
use kpt_resource_group.Controller.Resources.{set_res_status, actuation_status_to_legacy}

-- The errors of a read, as far as the code tells them apart.
pub data GetError : Type 0 where
  not_found_error no_match_error other_error : GetError

pub data Fetched (A : Type 0) : Type 0 where
  found : A → Fetched A
  failure : GetError → Fetched A

-- ResourceStatus{ObjMetadata: res}
abbrev pub fresh_status : ObjMetadata → ResourceStatus
fresh_status res = record {
  obj_metadata = res;
  status = "";
  source_hash = "";
  conditions = [];
  strategy = "";
  actuation = "";
  reconcile = "";
}

abbrev pub error_status : GetError → Status
error_status GetError.not_found_error = not_found
error_status GetError.no_match_error = not_found
error_status GetError.other_error = unknown

-- func (r *reconciler) getResourceStatus
unfoldable pub index_statuses :
    Map ObjMetadata ResourceStatus → List ResourceStatus → Map ObjMetadata ResourceStatus
index_statuses m [] = m
index_statuses m (s ∷ ss) = index_statuses (put m s.obj_metadata s) ss

abbrev pub resource_status_map : List ResourceStatus → Map ObjMetadata ResourceStatus
resource_status_map = index_statuses []

-- The update of the legacy status from the actuation, strategy and reconcile fields.
unfoldable pub overlay : Map ObjMetadata ResourceStatus → ResourceStatus → ResourceStatus
overlay actuations s = elim (get actuations s.obj_metadata) [
  | none ↦ s
  | some a ↦
      let s' = record s {
        actuation = a.actuation;
        strategy = a.strategy;
        reconcile = a.reconcile;
      } in
      record s' { status = actuation_status_to_legacy s' }
]

-- The test that sets `hasErr`.
unfoldable pub is_error : ResourceStatus → Bool
is_error s =
    s.status == failed
    || is_cnrm_resource s.obj_metadata.group_kind.group && not (s.status == current)

pub record Computed : Type 0 where
  pub statuses : List ResourceStatus
  pub resource_map : ResourceMap
  pub has_err : Bool

module _ (objects : Objects) (fetch : GroupVersionKind → NamespacedName → Fetched objects.Object)
    (types : Map GroupKind GroupVersionKind) (now : Time) (id : String) where
  -- What the `default` case of the switch makes of the answer of the server: an object's status goes
  -- into the cache.
  unfoldable pub store_fetched :
      ResourceMap → ObjMetadata → Fetched objects.Object → ResourceStatus × ResourceMap
  store_fetched m res (failure e) = (record (fresh_status res) { status = error_status e }, m)
  store_fetched m res (found obj) =
      let cached = compute_status objects now obj in
      (set_res_status now id (fresh_status res) cached, set_status m res (some cached))

  -- The `default` case of the switch.
  unfoldable pub read_status : ResourceMap → ObjMetadata → ResourceStatus × ResourceMap
  read_status m res = elim (get types (gk res)) [
    | none ↦ (record (fresh_status res) { status = not_found }, m)
    | some gvk ↦
        store_fetched m res (fetch gvk (record { namespace = res.namespace; name = res.name }))
  ]

  -- The switch.
  unfoldable pub resource_status : ResourceMap → ObjMetadata → ResourceStatus × ResourceMap
  resource_status m res = elim (get_status m res) [
    | some cached ↦ (set_res_status now id (fresh_status res) cached, m)
    | none ↦ read_status m res
  ]

  -- The loop of computeStatus.
  unfoldable pub compute_loop :
      Map ObjMetadata ResourceStatus → ResourceMap → List ObjMetadata → Computed
  compute_loop actuations m [] = record { statuses = []; resource_map = m; has_err = false }
  compute_loop actuations m (res ∷ metas) =
      let (s, m') = resource_status m res in
      let rest = compute_loop actuations m' metas in
      record {
        statuses = overlay actuations s ∷ rest.statuses;
        resource_map = rest.resource_map;
        has_err = is_error s || rest.has_err;
      }

  -- func (r *reconciler) computeStatus, but for the metric that reports `has_err`
  unfoldable pub compute_resource_list :
      List ResourceStatus → ResourceMap → List ObjMetadata → Computed
  compute_resource_list existing m metas = compute_loop (resource_status_map existing) m metas
