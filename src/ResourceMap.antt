-- ===== src/ResourceMap.antt =====
-- controllers/resourcemap/resourcemap.go: which resource groups include a resource, and back. Each
-- method is one step under the lock, but for Reconcile, which reads the old set of the group before it
-- takes the lock: `update_locked` is its part under the lock. Every set has one owner, the map that holds it, so an update
-- through a set's pointer is an update of that map's entry. `none` is a panic.
pub mod Links
pub mod Unlink
pub mod Link
pub mod Diff
pub mod Groups
pub mod Queries
pub mod Kinds
pub mod History
pub mod Stale
pub mod View
pub mod Tests
use kpt_resource_group.Base.{
  ℕ, Bool, true, false, not, ◌&&◌, Option, none, some, List, [], ◌∷◌, String, if◌then◌else◌, ◌>>=◌,
  ◌==◌, nat_eq, length, is_some,
}
use kpt_resource_group.GoMap.{Map, get, has, put, delete, keys, size}
use kpt_resource_group.KeySet
use kpt_resource_group.KeySet.{KeySet}
use kpt_resource_group.KeySet.Index.{trim}
use kpt_resource_group.Api.{
  NamespacedName, GroupKind, ObjMetadata, Status, Condition, gk, named_eq, gk_eq, meta_eq,
}

abbrev pub ResourceSet : Type 0
ResourceSet = KeySet ObjMetadata

abbrev pub ResourceGroupSet : Type 0
ResourceGroupSet = KeySet NamespacedName

pub record CachedStatus : Type 0 where
  pub status : Status
  pub conditions : List Condition
  pub source_hash : String
  pub inventory_id : String

-- The cached status is a pointer, which may be stored as nil.
pub record ResourceMap : Type 0 where
  pub res_to_resgroups : Map ObjMetadata ResourceGroupSet
  pub res_to_status : Map ObjMetadata (Option CachedStatus)
  pub resgroup_to_resources : Map NamespacedName ResourceSet
  pub gk_to_resources : Map GroupKind ResourceSet

unfoldable pub new_resource_map : ResourceMap
new_resource_map = record {
  res_to_resgroups = [];
  res_to_status = [];
  resgroup_to_resources = [];
  gk_to_resources = [];
}

-- The items of a slice that a set lacks: one loop of `diffResources`.
unfoldable pub missing : ResourceSet → List ObjMetadata → List ObjMetadata
missing s [] = []
missing s (r ∷ rs) = let rest = missing s rs in if KeySet.member s r then rest else r ∷ rest

-- (toAdd, toDelete)
unfoldable pub diff_resources :
    List ObjMetadata → List ObjMetadata → List ObjMetadata × List ObjMetadata
diff_resources old new = (missing (KeySet.new_set old) new, missing (KeySet.new_set new) old)

-- The part of the loop over `toDelete` that forgets a resource which no group includes any more.
unfoldable pub forget : ResourceMap → ObjMetadata → Option ResourceMap
forget m res = elim (get m.gk_to_resources (gk res)) [
  | none ↦ none
  | some kind ↦
      let kind' = KeySet.remove kind res in
      some (record m {
        res_to_resgroups = delete m.res_to_resgroups res;
        res_to_status = delete m.res_to_status res;
        gk_to_resources = trim m.gk_to_resources (gk res) kind';
      })
]

-- The body of the loop over `toDelete`.
unfoldable pub unlink : NamespacedName → ResourceMap → ObjMetadata → Option ResourceMap
unlink group m res = elim (get m.res_to_resgroups res) [
  | none ↦ some m
  | some groups ↦
      let groups' = KeySet.remove groups group in
      let m' = record m { res_to_resgroups = put m.res_to_resgroups res groups' } in
      if KeySet.length groups' == 0 then forget m' res else some m'
]

unfoldable pub unlink_all : NamespacedName → ResourceMap → List ObjMetadata → Option ResourceMap
unlink_all group m [] = some m
unlink_all group m (res ∷ rs) = do m' ← unlink group m res; unlink_all group m' rs

-- The entry of a resource that no group included yet, under its group and kind.
unfoldable pub file : ResourceMap → ObjMetadata → Map GroupKind ResourceSet
file m res = elim (get m.gk_to_resources (gk res)) [
  | none ↦ put m.gk_to_resources (gk res) (KeySet.new_set (res ∷ []))
  | some kind ↦ put m.gk_to_resources (gk res) (KeySet.add kind res)
]

-- The body of the loop over `toAdd`.
unfoldable pub link : NamespacedName → ResourceMap → ObjMetadata → ResourceMap
link group m res = elim (get m.res_to_resgroups res) [
  | some groups ↦ record m {
    res_to_resgroups = put m.res_to_resgroups res (KeySet.add groups group);
  }
  | none ↦ record m {
    res_to_resgroups = put m.res_to_resgroups res (KeySet.new_set (group ∷ []));
    gk_to_resources = file m res;
  }
]

unfoldable pub link_all : NamespacedName → ResourceMap → List ObjMetadata → ResourceMap
link_all group m [] = m
link_all group m (res ∷ rs) = link_all group (link group m res) rs

-- The group kinds of a list of resources, each once.
unfoldable pub kinds_of : List ObjMetadata → KeySet GroupKind → KeySet GroupKind
kinds_of [] gks = gks
kinds_of (r ∷ rs) gks = kinds_of rs (KeySet.add gks (gk r))

-- The state after `Reconcile`, the slice that it returns, and the total that it records.
pub record Reconciled : Type 0 where
  pub resource_map : ResourceMap
  pub group_kinds : List GroupKind
  pub group_total : ℕ

unfoldable pub old_resources : ResourceMap → NamespacedName → List ObjMetadata
old_resources m group = elim (get m.resgroup_to_resources group) [
  | none ↦ []
  | some s ↦ KeySet.to_slice s
]

-- The last part of `Reconcile`: the group kinds to watch, and the group's own entry.
unfoldable pub finish : NamespacedName → List ObjMetadata → Bool → ResourceMap → Reconciled
finish group resources delete_rg m =
    let gks = kinds_of (keys m.res_to_resgroups) (KeySet.new_set []) in
    let groups =
      if length resources == 0 && delete_rg
      then delete m.resgroup_to_resources group
      else put m.resgroup_to_resources group (KeySet.new_set resources) in
    record {
      resource_map = record m { resgroup_to_resources = groups };
      group_kinds = KeySet.to_slice gks;
      group_total = size groups;
    }

-- Reconcile from where it takes the lock, with (toAdd, toDelete).
abbrev pub update_locked :
    ResourceMap
    → NamespacedName
    → List ObjMetadata
    → Bool
    → List ObjMetadata × List ObjMetadata
    → Option Reconciled
update_locked m group resources delete_rg diff = do
  unlinked ← unlink_all group m diff.1
  some (finish group resources delete_rg (link_all group unlinked diff.0))

unfoldable pub reconcile :
    ResourceMap → NamespacedName → List ObjMetadata → Bool → Option Reconciled
reconcile m group given delete_rg =
    let resources = if delete_rg then [] else given in
    update_locked m group resources delete_rg (diff_resources (old_resources m group) resources)

unfoldable pub has_resource : ResourceMap → ObjMetadata → Bool
has_resource m res = has m.res_to_resgroups res

unfoldable pub has_resgroup : ResourceMap → NamespacedName → Bool
has_resgroup m group = has m.resgroup_to_resources group

-- func (m *ResourceMap) Get
unfoldable pub groups_of : ResourceMap → ObjMetadata → List NamespacedName
groups_of m res = elim (get m.res_to_resgroups res) [ none ↦ [] | some s ↦ KeySet.to_slice s ]

-- A missing entry and a nil pointer are one answer.
unfoldable pub get_status : ResourceMap → ObjMetadata → Option CachedStatus
get_status m res = elim (get m.res_to_status res) [ none ↦ none | some s ↦ s ]

unfoldable pub set_status : ResourceMap → ObjMetadata → Option CachedStatus → ResourceMap
set_status m res s = record m { res_to_status = put m.res_to_status res s }

-- A nil slice has no items.
unfoldable pub get_resources : ResourceMap → GroupKind → List ObjMetadata
get_resources m k = elim (get m.gk_to_resources k) [ none ↦ [] | some s ↦ KeySet.to_slice s ]

unfoldable pub map_is_empty : ResourceMap → Bool
map_is_empty m = size m.resgroup_to_resources == 0 && size m.res_to_resgroups == 0
