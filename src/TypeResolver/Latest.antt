-- ===== src/TypeResolver/Latest.antt =====
-- What Resolve answers after a refresh, read off the answer of discovery.
use kpt_resource_group.Base.{
  ◌≡◌, refl, ◌∙◌, ap, ◌&&◌, Option, none, some, List, [], ◌∷◌, String, arith, contains, ◌==◌,
  string_eq, if◌then◌else◌,
}
use kpt_resource_group.GoMap.{get, put}
use kpt_resource_group.GoMap.Laws.{get-put}
use kpt_resource_group.Api.{GroupKind, GroupVersionKind, gk_eq}
use kpt_resource_group.TypeResolver.{
  TypeMapping, ApiResourceList, GroupVersion, add_kinds, add_lists, refresh, resolve, reconcile,
}

abbrev pub or_else : Option GroupVersionKind → Option GroupVersionKind → Option GroupVersionKind
or_else none o = o
or_else (some v) o = some v

-- what one list of resources says of a kind
abbrev pub of_list : Option GroupVersion → List String → GroupKind → Option GroupVersionKind
of_list none kinds k = none
of_list (some gv) kinds k =
    if gv.group == k.group && contains kinds k.kind
    then some (record { group = k.group; version = gv.version; kind = k.kind })
    else none

-- The version of the last list that has the group and the kind.
unfoldable pub latest :
    (String → Option GroupVersion) → List ApiResourceList → GroupKind → Option GroupVersionKind
latest parse [] k = none
latest parse (l ∷ ls) k = or_else (latest parse ls k) (of_list (parse l.group_version) l.kinds k)

or_else_assoc :
    (a b c : Option GroupVersionKind) → or_else a (or_else b c) ≡ or_else (or_else a b) c
or_else_assoc none b c = refl
or_else_assoc (some v) b c = refl

get-add_kinds :
    (gv : GroupVersion) (kinds : List String) (mapping : TypeMapping) (k : GroupKind)
    → get (add_kinds gv mapping kinds) k ≡ or_else (of_list (some gv) kinds k) (get mapping k)
unfolding add_kinds contains
get-add_kinds gv [] mapping k = ground arith
get-add_kinds gv (kind ∷ kinds) mapping k =
    let key : GroupKind = record { group = gv.group; kind = kind } in
    let entry : GroupVersionKind = record { group = gv.group; version = gv.version; kind = kind } in
    ground (
      arith,
      get-add_kinds gv kinds (put mapping key entry) k,
      get-put mapping key entry k,
      gk_eq.equals_iff key k,
      string_eq.equals_iff gv.group k.group,
      string_eq.equals_iff kind k.kind,
    )

get-add_lists :
    (parse : String → Option GroupVersion) (ls : List ApiResourceList) (mapping : TypeMapping)
    (k : GroupKind)
    → get (add_lists parse mapping ls) k ≡ or_else (latest parse ls k) (get mapping k)
unfolding add_lists latest
get-add_lists parse [] mapping k = refl
get-add_lists parse (l ∷ ls) mapping k =
    elim (parse l.group_version)
      as (λ o.
        get
          (add_lists parse (elim o [ none ↦ mapping | some gv ↦ add_kinds gv mapping l.kinds ]) ls)
          k
        ≡ or_else (or_else (latest parse ls k) (of_list o l.kinds k)) (get mapping k)) [
          | none ↦ get-add_lists parse ls mapping k ∙ ground arith
          | some gv ↦
              get-add_lists parse ls (add_kinds gv mapping l.kinds) k
              ∙ (ap (or_else (latest parse ls k)) (get-add_kinds gv l.kinds mapping k)
                  ∙ or_else_assoc (latest parse ls k) (of_list (some gv) l.kinds k) (get mapping k))
        ]

-- After a Reconcile of the type resolver that discovery answers, Resolve gives for each group and
-- kind the version of the last list that parses and has them, and nothing where there is none;
-- after one that fails it answers as before.
pub resolve-refresh :
    (parse : String → Option GroupVersion) (mapping : TypeMapping) (k : GroupKind)
    (answer : Option (List ApiResourceList))
    → resolve (reconcile parse mapping answer) k
      ≡ (elim answer [ none ↦ resolve mapping k | some ls ↦ latest parse ls k ])
unfolding resolve reconcile refresh get
resolve-refresh parse mapping k none = refl
resolve-refresh parse mapping k (some ls) = get-add_lists parse ls [] k ∙ ground arith
