-- ===== src/Metrics/Tests.antt =====
-- A measurement, and the theorem on it.
use kpt_resource_group.Base.{ℕ, String, string_eq}
use kpt_resource_group.Api.{NamespacedName}

-- one digit for every number
abbrev decimal : ℕ → String
decimal n = "9"

abbrev in_shop : NamespacedName
in_shop = record { namespace = "shop"; name = "repo-sync" }

abbrev text_of : NamespacedName → String
text_of nn = nn.name
