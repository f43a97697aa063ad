-- ===== src/Controller/Reconcile/Tests.antt =====
-- A server that refuses some writes, and the theorems on a reconciliation and its updates with it.
use kpt_resource_group.Api.{ResourceGroup, empty_status, gk_eq, meta_eq}
use kpt_resource_group.Base.{◌||◌, if◌then◌else◌, ◌≡◌, refl, [], none, some, nat_eq, string_eq}
use kpt_resource_group.Controller.Update.{Cluster, update_failed, done, update_status_kpt_group}
use kpt_resource_group.Controller.Update.Answers.{update_status_kpt_group_answers}
use kpt_resource_group.Controller.Update.Retry.{is_refused}
use kpt_resource_group.Controller.Reconcile.{
  second_update, requeued, reconcile_kpt, reconciled_ok, ending,
}
use kpt_resource_group.Controller.Reconcile.Errors.{reconcile_kpt-requeued, first, second_status}
use kpt_resource_group.Controller.Fixtures.{Server, group_name, types, test_cluster, test_group}
use kpt_resource_group.ResourceMap.{new_resource_map}
use kpt_resource_group.Status.Tests.{test_objects}
use kpt_resource_group.Controller.Update.Conflict.{ordered}
use kpt_resource_group.Controller.Finish.{Ended, in_time, start_reconciling_status}

abbrev at_start : ResourceGroup
at_start = record test_group { status = ordered 5 (start_reconciling_status 5 empty_status) }

abbrev ended : Ended
ended = ending test_cluster types "label" 5 group_name new_resource_map in_time (record {
  world = record { refusals = 0; stored = some at_start };
  group = at_start;
  outcome = done;
})

abbrev at_end : ResourceGroup
at_end = record at_start { status = ordered 5 ended.status }

-- A server that refuses every write.
abbrev broken : Cluster test_objects
broken = record test_cluster { update_status = λ w g. (w, update_failed) }

reconcile_kpt-requeued_example :
    let w : Server = record { refusals = 0; stored = some test_group } in
    let run = reconcile_kpt broken types "label" 5 group_name new_resource_map in_time w in
    let a = first broken types "label" 5 group_name new_resource_map in_time w test_group in
    let start = start_reconciling_status 5 test_group.status in
    (run.reply ≡ (
      if is_refused broken (ordered 5 start) w test_group
        || is_refused broken
            (ordered 5 (
              second_status broken types "label" 5 group_name new_resource_map in_time w
                test_group))
            a.world
            a.group
      then requeued
      else reconciled_ok))
    × (run ≡ (
        if is_refused broken (ordered 5 start) w test_group
        then record { world = w; resource_map = new_resource_map; metrics = []; reply = requeued }
        else second_update broken types "label" 5 group_name new_resource_map in_time a))
reconcile_kpt-requeued_example =
    reconcile_kpt-requeued broken types "label" 5 group_name new_resource_map in_time
      (record { refusals = 0; stored = some test_group }) test_group (λ e. cc) refl refl

-- The first write meets a conflict, the second attempt writes nothing, and success is reported.
update_status_kpt_group_answers_example :
    update_status_kpt_group test_cluster 5 empty_status
      (record { refusals = 1; stored = none })
      (record test_group { status = record empty_status { observed_generation = 1 } })
    ≡ record {
      world = record { refusals = 0; stored = none };
      group = record test_group { status = ordered 5 empty_status };
      outcome = done;
    }
update_status_kpt_group_answers_example =
    update_status_kpt_group_answers test_cluster 5 empty_status
      (record { refusals = 1; stored = none })
      (record test_group { status = record empty_status { observed_generation = 1 } }) (λ e. cc)
