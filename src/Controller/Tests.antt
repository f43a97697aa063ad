-- ===== src/Controller/Tests.antt =====
-- The controller's functions run with small libraries, and the theorems at those inputs.
use kpt_resource_group.DeepCopy.{Elements, Slice, load, option_bind, get_elem?, take, drop}
use kpt_resource_group.DeepCopy.Types.{ResourceStatusOf}
use kpt_resource_group.Controller.Resources.Shared.{
  CachedStatusOf, IsSharedApart, status_with, cached_with, set_shared_status_lem,
}
use kpt_resource_group.Controller.Resources.{
  set_res_status, aggregate_resource_statuses, finish_reconciling, finish_reconciling_msg,
}
use kpt_resource_group.Base.{
  false, ◌↔◌, List, none, some, ◌∷◌, [], refl, ◌≡◌, nat_eq, string_eq, map, contains,
}
use kpt_resource_group.Controller.Fixtures.{topic, group_name, config, types, fetch, test_group}
use kpt_resource_group.Api.{
  Condition, no_condition, false_status, ResourceStatus, empty_status, failed, ownership,
  true_status, unknown_status, gk_eq, meta_eq,
}
use kpt_resource_group.Controller.Metrics.{
  pipeline_error, reconcile_duration, update_resource_metrics, ready_resource_count, resource_count,
  namespace_count, cluster_scoped_resource_count, crd_count, kcc_resource_count,
}
use kpt_resource_group.Controller.Finish.Reference.{end_reconciling_status_entries, entry}
use kpt_resource_group.Controller.Compute.{
  overlay, resource_status_map, compute_resource_list, fresh_status,
}
use kpt_resource_group.Controller.Compute.Reference.{
  compute_resource_list-reference, reference_status, some_error,
}
use kpt_resource_group.Controller.Metrics.Counts.{update_resource_metrics_lem, count, filter}
use kpt_resource_group.Text.{has_text}
use kpt_resource_group.KeySet.Size.{distinct_count}
use mathlib.Core.List.{Perm}
use kpt_resource_group.Api.Subgroups.{subgroup_entry}
use kpt_resource_group.ResourceMap.{new_resource_map}
use kpt_resource_group.Status.Tests.{test_objects}
use kpt_resource_group.Controller.Conditions.{
  adjust_condition_order, sort_by_type, new_reconciling_condition, new_stalled_condition, IsSorted,
}
use kpt_resource_group.Controller.Conditions.Order.{adjust_condition_order_lem}
use kpt_resource_group.Controller.Compute.Legacy.{AreSettled, compute_resource_list_statuses}
use kpt_resource_group.Controller.Compute.Cache.{Caches, compute_resource_list-Caches}
use kpt_resource_group.Controller.Finish.{
  end_reconciling_status, in_time, Race, Work, late_subgroups, raced_status,
}
use kpt_resource_group.Controller.Finish.Races.{Write, IsRun, write_all, raced_status_lem}

compute_resource_list_statuses_example :
    let out =
      compute_resource_list test_objects fetch types 5 "ns_group" [] new_resource_map
        (topic ∷ config ∷ []) in
    (map (λ s. s.obj_metadata) out.statuses ≡ topic ∷ config ∷ []) × AreSettled out.statuses
compute_resource_list_statuses_example =
    compute_resource_list_statuses test_objects fetch types 5 "ns_group" [] new_resource_map
      (topic ∷ config ∷ [])

compute_resource_list-Caches_example :
    Caches
      (topic ∷ config ∷ [])
      new_resource_map
      (compute_resource_list test_objects fetch types 5 "ns_group" [] new_resource_map
        (topic ∷ config ∷ [])).resource_map
compute_resource_list-Caches_example =
    compute_resource_list-Caches test_objects fetch types 5 "ns_group" [] new_resource_map
      (topic ∷ config ∷ [])

abbrev owned : Condition
owned = record no_condition { type = ownership; status = true_status }

adjust_condition_order_lem_example :
    (adjust_condition_order 5 (owned ∷ new_stalled_condition 3 true_status "" "" ∷ [])
      ≡ new_reconciling_condition 5 unknown_status "" ""
        ∷ new_stalled_condition 3 true_status "" ""
        ∷ sort_by_type (owned ∷ []))
    × IsSorted (sort_by_type (owned ∷ []))
    × Perm (sort_by_type (owned ∷ [])) (owned ∷ [])
unfolding new_stalled_condition
adjust_condition_order_lem_example =
    adjust_condition_order_lem 5 (owned ∷ new_stalled_condition 3 true_status "" "" ∷ [])

abbrev failed_topic : ResourceStatus
failed_topic = record (fresh_status topic) { status = failed }

compute_resource_list-reference_example :
    let out =
      compute_resource_list test_objects fetch types 5 "ns_group" [] new_resource_map
        (topic ∷ config ∷ []) in
    let alone = reference_status test_objects fetch types 5 "ns_group" new_resource_map in
    (out.statuses ≡ map (λ r. overlay (resource_status_map []) (alone r)) (topic ∷ config ∷ []))
    × (out.has_err ≡ some_error (map alone (topic ∷ config ∷ [])))
compute_resource_list-reference_example =
    compute_resource_list-reference test_objects fetch types 5 "ns_group" [] new_resource_map
      (topic ∷ config ∷ [])

update_resource_metrics_lem_example :
    update_resource_metrics group_name (failed_topic ∷ failed_topic ∷ fresh_status config ∷ [])
    ≡ ready_resource_count group_name 0
      ∷ resource_count group_name 3
      ∷ namespace_count group_name 1
      ∷ cluster_scoped_resource_count group_name 0
      ∷ crd_count group_name 0
      ∷ kcc_resource_count group_name 2
      ∷ []
unfolding count filter has_text distinct_count contains
update_resource_metrics_lem_example =
    update_resource_metrics_lem group_name (failed_topic ∷ failed_topic ∷ fresh_status config ∷ [])

end_reconciling_status_entries_example :
    let e =
      end_reconciling_status test_objects fetch types 5 "ns_group" group_name test_group.spec
        empty_status 2 new_resource_map in_time in
    let alone =
      entry test_objects fetch types 5 "ns_group" group_name test_group.spec empty_status 2
        new_resource_map in
    (e.status ≡ record {
      observed_generation = 2;
      resource_statuses = map alone (topic ∷ config ∷ []);
      subgroup_statuses = map (subgroup_entry alone) (group_name ∷ []);
      conditions = some (
          new_reconciling_condition 5 false_status finish_reconciling finish_reconciling_msg
          ∷ aggregate_resource_statuses 5 (map alone (topic ∷ config ∷ []))
          ∷ []);
    })
    × (e.metrics
        ≡ pipeline_error group_name "readiness" (
            some_error (
              map
                (reference_status test_objects fetch types 5 "ns_group" new_resource_map)
                (topic ∷ config ∷ [])))
          ∷ reconcile_duration
              (aggregate_resource_statuses 5 (map alone (topic ∷ config ∷ []))).reason
          ∷ update_resource_metrics group_name (map alone (topic ∷ config ∷ [])))
end_reconciling_status_entries_example =
    end_reconciling_status_entries test_objects fetch types 5 "ns_group" group_name test_group.spec
      empty_status 2 new_resource_map

-- An array is a list of conditions, and the cached status has the first of two.
abbrev lists : Elements (List Condition) Condition
lists = record {
  array_of = λ cs. cs;
  elements_of = λ cs. some cs;
  elements_of-array_of = λ cs. refl;
}

abbrev two_conditions : List Condition
two_conditions =
    record no_condition { type = "Ready" } ∷ record no_condition { type = "Stalled" } ∷ []

abbrev shared_status : CachedStatusOf Slice
shared_status = record {
  status = "Current";
  conditions = some (record { address = 0; offset = 0; len = 1 });
  source_hash = "";
  inventory_id = "other";
}

abbrev topic_status : ResourceStatusOf Slice
topic_status = record {
  obj_metadata = topic;
  status = "";
  source_hash = "";
  conditions = none;
  strategy = "";
  actuation = "";
  reconcile = "";
}

set_shared_status_lem_example :
    IsSharedApart lists 5 "id" topic_status shared_status (two_conditions ∷ []) (
      set_res_status 5 "id"
        (status_with lists topic_status [])
        (cached_with lists shared_status (record no_condition { type = "Ready" } ∷ [])))
unfolding load option_bind get_elem? take drop
set_shared_status_lem_example =
    set_shared_status_lem lists 5 "id" topic_status shared_status (two_conditions ∷ [])
      (record no_condition { type = "Ready" } ∷ []) [] refl

-- The goroutine writes the resources before the timeout branch resets them, and the subgroups after.
abbrev raced_work : Work
raced_work = record {
  resources = fresh_status topic ∷ [];
  subgroups = record { group_metadata = group_name; status = "Current"; conditions = [] } ∷ [];
  resource_map = new_resource_map;
  has_err = false;
}

raced_status_lem_example :
    ((zs : List Write) × IsRun 5 2 empty_status raced_work zs
      × (write_all empty_status zs ≡ raced_status 5 2 empty_status raced_work late_subgroups))
    ↔ ((race : Race) × (raced_status 5 2 empty_status raced_work race
          ≡ raced_status 5 2 empty_status raced_work late_subgroups))
raced_status_lem_example =
    raced_status_lem 5 2 empty_status raced_work
      (raced_status 5 2 empty_status raced_work late_subgroups)
