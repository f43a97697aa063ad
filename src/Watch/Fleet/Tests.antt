-- ===== src/Watch/Fleet/Tests.antt =====
-- A history in which a watcher is dropped by the late error of the one before it, and runs on.
use kpt_resource_group.Base.{
  ◌≤◌, ◌≡◌, refl, true, false, List, [], ◌∷◌, ◌++◌, contains, length, if◌then◌else◌,
}
use kpt_resource_group.GoMap.{get, put, delete}
use kpt_resource_group.GoMap.Values.{values}
use kpt_resource_group.Api.{GroupVersionKind, gvk_eq}
use kpt_resource_group.Watch.Manager.{
  GvkSet, new_manager, update_watches, stop_obsolete, start_new, stop_watcher, start_watcher,
  run_watcher_returned,
}
use kpt_resource_group.KeySet
use kpt_resource_group.Watch.Manager.Account.{account, new_account}
use kpt_resource_group.Watch.Filtered.Lifecycle.{
  new_filtered, act, start, stop, stop_base, begin_watch, close,
}
use kpt_resource_group.Watch.Fleet.{
  WatcherName, watcher_name_eq, fleet_step, act_of, stop_all, Fleet, FleetStep, calls_update,
  calls_start, leaves_loop, has_returned, new_fleet, fleet_steps,
}
use kpt_resource_group.Watch.Fleet.Bound.{open_count, running_count, fleet_bounded}

abbrev apps : GroupVersionKind
apps = record { group = "apps"; version = "v1"; kind = "Deployment" }

abbrev first : WatcherName
first = record { calls = 0; gvk = apps }

abbrev third : WatcherName
third = record { calls = 2; gvk = apps }

abbrev fourth : WatcherName
fourth = record { calls = 3; gvk = apps }

abbrev wanted : GvkSet
wanted = record { entries = (apps, tt) ∷ [] }

abbrev nothing_wanted : GvkSet
nothing_wanted = record { entries = [] }

-- The first watcher fails, is stopped before its goroutine has the lock, and is followed by another.
abbrev history : List FleetStep
history =
    calls_update (λ g. true) wanted
    ∷ calls_start first true
    ∷ leaves_loop first
    ∷ calls_start first false
    ∷ calls_update (λ g. true) nothing_wanted
    ∷ calls_update (λ g. true) wanted
    ∷ calls_start third true
    ∷ has_returned first true
    ∷ calls_update (λ g. true) wanted
    ∷ calls_start fourth true
    ∷ []

abbrev after : Fleet
after = fleet_steps new_fleet history

-- The manager holds one watcher of the type, and two watches of it are open.
two_open :
    (values after.account.manager.watcher_map ≡ fourth ∷ [])
    × (open_count after.lives after.account.started ≡ 2)
unfolding fleet_steps fleet_step act_of stop_all contains new_account account new_manager
    update_watches stop_obsolete start_new stop_watcher start_watcher run_watcher_returned
    new_filtered act start stop stop_base begin_watch close get put delete gvk_eq watcher_name_eq
    KeySet.member KeySet.to_slice
two_open = (refl, refl)

fleet_bounded_example :
    (open_count after.lives after.account.started
      ≤ running_count after.lives
          (values after.account.manager.watcher_map ++ after.account.dropped))
    × ((n : WatcherName)
        → (if contains after.account.stopped n then length (after.lives n).open_watches else 0) ≡ 0)
fleet_bounded_example = fleet_bounded history
