-- ===== src/Root/Tests.antt =====
-- The root controller on small inputs, and the theorems at those inputs.
use kpt_resource_group.Base.{
  true, List, ◌≡◌, refl, false, [], ◌∷◌, Option, none, some, string_eq, contains, map,
}
use kpt_resource_group.Root.Reconcile.Total.{
  Step, requests, returns, stores, serve, fresh_state, serve_lem, Holds, no_entries, spec_serve,
}
use kpt_resource_group.Handler.Events.{is_updated, is_sent}
use kpt_resource_group.Root.Sources.{sources_lem, definition_source, group_source, passes_all}
use kpt_resource_group.GoMap.{get}
use kpt_resource_group.Api.{
  GroupVersionKind, ResourceGroup, gk_eq, gvk_eq, named_eq, meta_eq, empty_status,
}
use kpt_resource_group.ResourceMap.{new_resource_map}
use kpt_resource_group.ResourceMap.Tests.{shared, shared-IsConsistent, group_a}
use kpt_resource_group.Status.Tests.{test_objects}
use kpt_resource_group.TypeResolver.{TypeMapping}
use kpt_resource_group.Controller.Fixtures.{
  test_cluster, test_group, topic, types, fetch, group_name, Server,
}
use kpt_resource_group.Controller.Finish.{start_reconciling_status, end_reconciling_status, in_time}
use kpt_resource_group.Controller.Update.Conflict.{ordered}
use kpt_resource_group.Root.Predicate.{predicate_update, is_status_disabled}
use kpt_resource_group.Root.Predicate.Loops.{finish_update_ignored}
use kpt_resource_group.Root.Reconcile.{State, Handled, reconcile_kpt_group}
use kpt_resource_group.Root.Reconcile.Serves.{Serves}
use kpt_resource_group.Root.Reconcile.Disabled.{reconcile_kpt_group-disabled, Clears}

-- A watcher is the type that it watches; each can be created.
abbrev create : GroupVersionKind → Option GroupVersionKind
create gvk = some gvk

abbrev state : State GroupVersionKind
state = record {
  resource_map = shared;
  watches = record { watcher_map = []; needs_update = false };
}

abbrev deployments : TypeMapping
deployments =
    (
      record { group = "apps"; kind = "Deployment" },
      record { group = "apps"; version = "v1"; kind = "Deployment" },
    )
    ∷ []

-- The group has a topic and a subgroup, which resolve to no type, and the deployments of the other groups are watched.
abbrev topic_group : ResourceGroup
topic_group = record test_group {
  meta_name = group_a;
  spec = record { resources = topic ∷ []; subgroups = group_name ∷ [] };
}

abbrev after_start : ResourceGroup
after_start = record test_group { status = ordered 5 (start_reconciling_status 5 empty_status) }

abbrev after_finish : ResourceGroup
after_finish = record test_group {
  status =
      ordered 5
        (end_reconciling_status test_objects fetch types 5 "ns_group" group_name test_group.spec
          empty_status 2 new_resource_map in_time).status;
}

finish_update_ignored_example :
    predicate_update (some after_start) (some after_finish)
    ≡ contains (map (λ s. s.status) after_finish.status.resource_statuses) "Failed"
unfolding is_status_disabled get
finish_update_ignored_example =
    finish_update_ignored after_start after_finish 5 test_objects fetch types "ns_group" group_name
      test_group.spec empty_status 2 new_resource_map refl refl refl

abbrev disabled_group : ResourceGroup
disabled_group = record test_group {
  annotations = ("configsync.gke.io/status", "disabled") ∷ [];
  status = record empty_status { observed_generation = 1 };
}

abbrev cleared_group : ResourceGroup
cleared_group = record disabled_group { status = empty_status }

-- The write is accepted.
reconcile_kpt_group-disabled_example :
    (h : Handled Server GroupVersionKind) × (reconcile_kpt_group test_cluster create deployments
        (record { refusals = 0; stored = some disabled_group })
        state
        group_a
      ≡ some h)
    × Clears test_cluster create deployments
        (record { refusals = 0; stored = some disabled_group })
        state
        group_a
        disabled_group
        false
        h
unfolding is_status_disabled get
reconcile_kpt_group-disabled_example =
    reconcile_kpt_group-disabled test_cluster create deployments
      (record { refusals = 0; stored = some disabled_group }) state group_a disabled_group (λ e. cc)
      shared-IsConsistent refl refl

-- An update of the definition of Deployment changes nothing, and a generic event makes no request.
sources_lem_example :
    (definition_source passes_all shared (
        is_updated
          (some (record { group = "apps"; kind = "Deployment" }))
          (some (record { group = "apps"; kind = "Deployment" })))
      ≡ (shared, []))
    × (group_source passes_all (is_sent none) ≡ false)
sources_lem_example =
    sources_lem passes_all (λ fs n. refl) shared
      (is_updated (some (record { group = "apps"; kind = "Deployment" }))
        (some (record { group = "apps"; kind = "Deployment" })))
      (is_sent none)

-- A group is recorded, the watcher of its topics returns with an error, a status is stored, and another
-- group is recorded and then disabled.
abbrev steps : List (Step Server GroupVersionKind)
steps =
    requests create types (record { refusals = 0; stored = some test_group }) group_name
    ∷ returns
        (record {
          group = "pubsub.cnrm.cloud.google.com";
          version = "v1beta1";
          kind = "PubSubTopic";
        })
        true
    ∷ stores topic none
    ∷ requests create types (record { refusals = 0; stored = some topic_group }) group_a
    ∷ requests create types (record { refusals = 0; stored = some disabled_group }) group_a
    ∷ []

serve_lem_example :
    (s : State GroupVersionKind) × (serve test_cluster fresh_state steps ≡ some s)
    × Holds s.resource_map (spec_serve test_cluster no_entries steps)
serve_lem_example = serve_lem test_cluster steps (λ e. cc)
