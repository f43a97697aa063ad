-- ===== src/TypeResolver/Fake.antt =====
-- controllers/typeresolver/fakeresolver.go: the resolver of the repository's tests, a fixed mapping,
-- and the cases of typeresolver_test.go. No operation fills it, so that it is well formed is shown
-- here.
use kpt_resource_group.Base.{◌≡◌, refl, List, [], ◌∷◌, Option, none, some, String, string_eq, arith}
use kpt_resource_group.GoMap.{get}
use kpt_resource_group.Api.{gk_eq}
use kpt_resource_group.TypeResolver.{TypeMapping, ApiResourceList, GroupVersion, resolve, refresh}
use kpt_resource_group.TypeResolver.Preferred.{IsTyped, refresh-IsTyped}

-- func fakeResolver
abbrev fake_resolver : TypeMapping
fake_resolver =
    (
      record { group = "apps"; kind = "Deployment" },
      record { group = "apps"; version = "v1"; kind = "Deployment" },
    )
    ∷ (
      record { group = "apps"; kind = "StatefulSet" },
      record { group = "apps"; version = "v1"; kind = "StatefulSet" },
    )
    ∷ (
      record { group = "apps"; kind = "DaemonSet" },
      record { group = "apps"; version = "v1"; kind = "DaemonSet" },
    )
    ∷ (
      record { group = ""; kind = "ConfigMap" },
      record { group = ""; version = "v1"; kind = "ConfigMap" },
    )
    ∷ []

fake_resolver-IsTyped : IsTyped fake_resolver
unfolding resolve get
fake_resolver-IsTyped k v e = ground (
  arith,
  gk_eq.equals_iff (record { group = "apps"; kind = "Deployment" }) k,
  gk_eq.equals_iff (record { group = "apps"; kind = "StatefulSet" }) k,
  gk_eq.equals_iff (record { group = "apps"; kind = "DaemonSet" }) k,
  gk_eq.equals_iff (record { group = ""; kind = "ConfigMap" }) k,
)

-- A refresh of the fake resolver keeps it well formed.
refresh-fake_resolver :
    (parse : String → Option GroupVersion) (answer : Option (List ApiResourceList))
    → IsTyped (refresh parse fake_resolver answer)
refresh-fake_resolver parse answer =
    refresh-IsTyped parse fake_resolver answer fake_resolver-IsTyped

-- "non existing type return false"
resolve_unknown : resolve fake_resolver (record { group = "not.exist"; kind = "UnFound" }) ≡ none
unfolding resolve get gk_eq
resolve_unknown = refl

-- "should have ConfigMap"
resolve_config_map :
    resolve fake_resolver (record { group = ""; kind = "ConfigMap" })
    ≡ some (record { group = ""; version = "v1"; kind = "ConfigMap" })
unfolding resolve get gk_eq
resolve_config_map = refl

-- "should have Deployment"
resolve_deployment :
    resolve fake_resolver (record { group = "apps"; kind = "Deployment" })
    ≡ some (record { group = "apps"; version = "v1"; kind = "Deployment" })
unfolding resolve get gk_eq
resolve_deployment = refl
