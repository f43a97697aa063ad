-- ===== src/TypeResolver/Preferred.antt =====
-- What Resolve answers has the group and the kind that it was asked for.
use kpt_resource_group.Base.{
  ◌≡◌, Option, none, some, List, [], ◌∷◌, String, arith, Option-cases, inl, inr,
}
use kpt_resource_group.GoMap.{get, put}
use kpt_resource_group.GoMap.Laws.{get-put}
use kpt_resource_group.Api.{GroupKind, GroupVersionKind, gk_eq}
use kpt_resource_group.TypeResolver.{
  TypeMapping, ApiResourceList, GroupVersion, add_kinds, add_lists, refresh, resolve,
}

-- Every entry of the mapping has the group and kind of its key.
abbrev pub IsTyped : TypeMapping → Type 0
IsTyped mapping =
    (k : GroupKind) (v : GroupVersionKind)
    → resolve mapping k ≡ some v
    → (v.group ≡ k.group) × (v.kind ≡ k.kind)

put-IsTyped :
    (gv : GroupVersion) (mapping : TypeMapping) (kind : String)
    → IsTyped mapping
    → IsTyped (
        put mapping
          (record { group = gv.group; kind = kind })
          (record { group = gv.group; version = gv.version; kind = kind }))
unfolding resolve
put-IsTyped gv mapping kind h k v e = ground (
  arith,
  h k v,
  gk_eq.equals_iff (record { group = gv.group; kind = kind }) k,
  get-put mapping (record { group = gv.group; kind = kind })
      (record { group = gv.group; version = gv.version; kind = kind }) k,
)

add_kinds-IsTyped :
    (gv : GroupVersion) (kinds : List String) (mapping : TypeMapping)
    → IsTyped mapping
    → IsTyped (add_kinds gv mapping kinds)
unfolding add_kinds
add_kinds-IsTyped gv [] mapping h = h
add_kinds-IsTyped gv (kind ∷ kinds) mapping h =
    add_kinds-IsTyped gv kinds _ (put-IsTyped gv mapping kind h)

add_lists-IsTyped :
    (parse : String → Option GroupVersion) (ls : List ApiResourceList) (mapping : TypeMapping)
    → IsTyped mapping
    → IsTyped (add_lists parse mapping ls)
unfolding add_lists
add_lists-IsTyped parse [] mapping h = h
add_lists-IsTyped parse (l ∷ ls) mapping h = elim (Option-cases (parse l.group_version)) [
  | inl e ↦ rw e (add_lists-IsTyped parse ls mapping h)
  | inr (gv, e) ↦ rw e (
      add_lists-IsTyped parse ls (add_kinds gv mapping l.kinds)
        (add_kinds-IsTyped gv l.kinds mapping h))
]

-- After any Refresh, also one that fails, Resolve answers with a version of the very group and kind
-- that it is asked for, if it did so before.
pub refresh-IsTyped :
    (parse : String → Option GroupVersion) (mapping : TypeMapping)
    (answer : Option (List ApiResourceList))
    → IsTyped mapping
    → IsTyped (refresh parse mapping answer)
unfolding refresh get resolve
refresh-IsTyped parse mapping none h = h
refresh-IsTyped parse mapping (some ls) h = add_lists-IsTyped parse ls [] (λ k v e. cc)
