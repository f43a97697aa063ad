-- ===== src/TypeResolver.antt =====
-- controllers/typeresolver/typeresolver.go: the preferred version of each group and kind. The
-- discovery client and the parser of group versions are libraries, and come as arguments.
pub mod Preferred
pub mod Latest
pub mod Fake
pub mod Tests
use kpt_resource_group.Base.{Option, none, some, List, [], ◌∷◌, String}
use kpt_resource_group.GoMap.{Map, get, put}
use kpt_resource_group.Api.{GroupKind, GroupVersionKind, gk_eq}

abbrev pub TypeMapping : Type 0
TypeMapping = Map GroupKind GroupVersionKind

-- metav1.APIResourceList, with the kinds of its resources
pub record ApiResourceList : Type 0 where
  pub group_version : String
  pub kinds : List String

-- schema.GroupVersion
pub record GroupVersion : Type 0 where
  pub group : String
  pub version : String

-- The inner loop of Refresh.
unfoldable pub add_kinds : GroupVersion → TypeMapping → List String → TypeMapping
add_kinds gv mapping [] = mapping
add_kinds gv mapping (kind ∷ kinds) =
    add_kinds gv
      (put mapping (record { group = gv.group; kind = kind })
        (record { group = gv.group; version = gv.version; kind = kind }))
      kinds

-- The outer loop of Refresh; a group version that does not parse is skipped.
unfoldable pub add_lists :
    (String → Option GroupVersion) → TypeMapping → List ApiResourceList → TypeMapping
add_lists parse mapping [] = mapping
add_lists parse mapping (l ∷ ls) =
    add_lists parse
      (elim (parse l.group_version) [ none ↦ mapping | some gv ↦ add_kinds gv mapping l.kinds ]) ls

-- func (r *TypeResolver) Refresh; `none` is an error of discovery.
unfoldable pub refresh :
    (String → Option GroupVersion) → TypeMapping → Option (List ApiResourceList) → TypeMapping
refresh parse mapping none = mapping
refresh parse mapping (some ls) = add_lists parse [] ls

-- func (r *TypeResolver) Resolve
unfoldable pub resolve : TypeMapping → GroupKind → Option GroupVersionKind
resolve mapping k = get mapping k

-- func (r *TypeResolver) Reconcile, for any request; it returns no error.
unfoldable pub reconcile :
    (String → Option GroupVersion) → TypeMapping → Option (List ApiResourceList) → TypeMapping
reconcile parse mapping answer = refresh parse mapping answer
