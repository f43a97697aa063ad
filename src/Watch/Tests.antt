-- ===== src/Watch/Tests.antt =====
-- The watch manager on two types, and the theorems at that input.
use mathlib.Core.List.{Perm}
use kpt_resource_group.Base.{
  List, ◌++◌, ◌≡◌, refl, true, false, [], ◌∷◌, Option, none, some, if◌then◌else◌, ◌==◌, string_eq,
}
use kpt_resource_group.GoMap.Values.{values}
use kpt_resource_group.Watch.Manager.Account.{
  Change, updates, returns, run_changes, new_account, run_changes_accounted,
}
use kpt_resource_group.GoMap.{get, put, delete}
use kpt_resource_group.KeySet
use kpt_resource_group.Api.{GroupVersionKind, gvk_eq}
use kpt_resource_group.Watch.Manager.{
  Manager, GvkSet, update_watches, stop_obsolete, start_new, stop_watcher, start_watcher,
}
use kpt_resource_group.Watch.Manager.Targets.{get-update_watches}

abbrev apps : GroupVersionKind
apps = record { group = "apps"; version = "v1"; kind = "Deployment" }

abbrev topics : GroupVersionKind
topics = record { group = "pubsub"; version = "v1beta1"; kind = "PubSubTopic" }

abbrev missing : GroupVersionKind
missing = record { group = "pubsub"; version = "v9"; kind = "PubSubTopic" }

-- A watcher is its type, and one type has none.
abbrev create : GroupVersionKind → Option GroupVersionKind
create gvk = if gvk.version == "v9" then none else some gvk

abbrev manager : Manager GroupVersionKind
manager = record { watcher_map = (apps, apps) ∷ []; needs_update = true }

abbrev wanted : GvkSet
wanted = record { entries = (topics, tt) ∷ (missing, tt) ∷ [] }

-- The obsolete watcher is stopped, one is started, and the other type is the error's.
update_watches_run : update_watches create manager wanted ≡ record {
  manager = record { watcher_map = (topics, topics) ∷ []; needs_update = false };
  stopped = apps ∷ [];
  started = topics ∷ [];
  err = some missing;
}
unfolding update_watches stop_obsolete start_new stop_watcher start_watcher get put delete gvk_eq
    KeySet.member KeySet.to_slice
update_watches_run = refl

get-update_watches_example :
    get (update_watches create manager wanted).manager.watcher_map topics ≡ some topics
unfolding get gvk_eq KeySet.member
get-update_watches_example = get-update_watches create manager wanted topics

-- The two types are swapped for the first, whose old watcher then returns with an error.
abbrev changes : List (Change GroupVersionKind)
changes =
    updates create wanted ∷ updates create (KeySet.new_set (apps ∷ [])) ∷ returns apps true ∷ []

run_changes_accounted_example :
    let a = run_changes new_account changes in
    Perm (values a.manager.watcher_map ++ (a.stopped ++ a.dropped)) a.started
run_changes_accounted_example = run_changes_accounted changes
