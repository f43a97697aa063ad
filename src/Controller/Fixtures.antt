-- ===== src/Controller/Fixtures.antt =====
-- Small libraries and inputs for the tests: a server that refuses some writes, and a group of two
-- resources.
use kpt_resource_group.Base.{
  ℕ, zero, suc, ◌≡◌, refl, Bool, true, false, ◌&&◌, ◌∷◌, [], List, String, Option, none, some, ◌==◌,
  nat_eq, string_eq, arith, ==_refl,
}
use kpt_resource_group.GoMap.{Map}
use kpt_resource_group.Api.{
  NamespacedName, GroupKind, GroupVersionKind, ObjMetadata, ResourceGroup, ResourceGroupStatus,
  Condition, empty_status, failed, gk_eq, meta_eq,
}
use kpt_resource_group.Status.Tests.{test_objects}
use kpt_resource_group.Controller.Compute.{Fetched, found}
use kpt_resource_group.Controller.Update.{
  Cluster, UpdateAnswer, updated, conflict, GroupAnswer, group_found, group_not_found, attempts,
}

abbrev pub group_name : NamespacedName
group_name = record { namespace = "ns"; name = "group" }

abbrev pub topic : ObjMetadata
topic = record {
  namespace = "ns";
  name = "topic";
  group_kind = record { group = "pubsub.cnrm.cloud.google.com"; kind = "PubSubTopic" };
}

abbrev pub config : ObjMetadata
config = record {
  namespace = "ns";
  name = "conf";
  group_kind = record { group = ""; kind = "ConfigMap" };
}

abbrev pub types : Map GroupKind GroupVersionKind
types =
    (
      record { group = "pubsub.cnrm.cloud.google.com"; kind = "PubSubTopic" },
      record { group = "pubsub.cnrm.cloud.google.com"; version = "v1beta1"; kind = "PubSubTopic" },
    )
    ∷ []

-- Every object is there, and failed.
abbrev pub fetch : GroupVersionKind → NamespacedName → Fetched String
fetch gvk nn = found failed

-- The server refuses a number of writes with a conflict, and then stores the object.
pub record Server : Type 0 where
  pub refusals : ℕ
  pub stored : Option ResourceGroup

abbrev answers : ℕ → Option ResourceGroup → ResourceGroup → Server × UpdateAnswer
answers zero stored g = (record { refusals = zero; stored = some g }, updated g)
answers (suc n) stored g = (record { refusals = n; stored = stored }, conflict)

abbrev answer : Server → ResourceGroup → Server × UpdateAnswer
answer w g = answers w.refusals w.stored g

-- Two statuses are equal if they have equal generations and start with the same reason.
abbrev first_reason : Option (List Condition) → String
first_reason (some (c ∷ cs)) = c.reason
first_reason other = ""

abbrev same : ResourceGroupStatus → ResourceGroupStatus → Bool
same a b =
    a.observed_generation == b.observed_generation
    && first_reason a.conditions == first_reason b.conditions

pub same_refl : (s : ResourceGroupStatus) → same s s ≡ true
same_refl s = ground (arith, ==_refl s.observed_generation, ==_refl (first_reason s.conditions))

abbrev lookup : Option ResourceGroup → GroupAnswer
lookup none = group_not_found
lookup (some g) = group_found g

abbrev pub test_cluster : Cluster test_objects
test_cluster = record {
  World = Server;
  get_group = λ w nn. lookup w.stored;
  get_object = λ w. fetch;
  update_status = answer;
  deep_equal = same;
  deep_equal_refl = same_refl;
  retries = 3;
  retry_on_conflict = attempts 3;
  retry_lem = λ f w g. refl;
}

abbrev pub test_group : ResourceGroup
test_group = record {
  meta_name = group_name;
  labels = [];
  annotations = [];
  generation = 2;
  deleting = false;
  spec = record { resources = topic ∷ config ∷ []; subgroups = group_name ∷ [] };
  status = empty_status;
}
