-- ===== src/TypeResolver/Tests.antt =====
-- A refresh on two lists of resources, and the theorem at that input.
use kpt_resource_group.TypeResolver.{
  reconcile, ApiResourceList, GroupVersion, refresh, resolve, add_lists, add_kinds,
}
use kpt_resource_group.TypeResolver.Latest.{resolve-refresh, latest}
use kpt_resource_group.Base.{
  ◌≡◌, refl, List, [], ◌∷◌, Option, none, some, String, if◌then◌else◌, ◌==◌, string_eq,
}
use kpt_resource_group.GoMap.{get, put}
use kpt_resource_group.Api.{gk_eq}
use kpt_resource_group.TypeResolver.Preferred.{IsTyped}

abbrev pub parse : String → Option GroupVersion
parse s = if s == "apps/v1" then some (record { group = "apps"; version = "v1" }) else none

abbrev pub answer : List ApiResourceList
answer =
    record { group_version = "apps/v1"; kinds = "Deployment" ∷ "StatefulSet" ∷ [] }
    ∷ record { group_version = "a/b/c"; kinds = "Broken" ∷ [] }
    ∷ []

refresh_run :
    resolve (refresh parse [] (some answer)) (record { group = "apps"; kind = "StatefulSet" })
    ≡ some (record { group = "apps"; version = "v1"; kind = "StatefulSet" })
unfolding resolve refresh add_lists add_kinds get put gk_eq
refresh_run = refl

nothing-IsTyped : IsTyped []
unfolding resolve get
nothing-IsTyped k v e = cc

resolve-refresh_example :
    resolve (reconcile parse [] (some answer)) (record { group = "apps"; kind = "StatefulSet" })
    ≡ latest parse answer (record { group = "apps"; kind = "StatefulSet" })
resolve-refresh_example =
    resolve-refresh parse [] (record { group = "apps"; kind = "StatefulSet" }) (some answer)
