-- ===== src/Watch/Creation.antt =====
-- controllers/watch/watcher.go: createWatcher, which the manager calls without a startWatch. The mapping of
-- a type to a resource and the dynamic client are libraries, and their errors are `none`.
use kpt_resource_group.Base.{◌≡◌, ◌↔◌, true, ◌&&◌, ◌||◌, Option, none, some, ◌>>=◌, is_some, arith}
use kpt_resource_group.KeySet
use kpt_resource_group.Api.{GroupVersionKind, gvk_eq}
use kpt_resource_group.Watch.Manager.{Manager, GvkSet, update_watches, is_watched}
use kpt_resource_group.Watch.Manager.Targets.{get-update_watches, update_watches-err_iff}
use kpt_resource_group.Watch.Filtered.Lifecycle.{Lifecycle, new_filtered}

-- A watcher, with the function that starts its watches.
pub record Created (Start : Type 0) : Type 0 where
  pub gvk : GroupVersionKind
  pub start_watch : Start
  pub lifecycle : Lifecycle

module _ {Resource Client Start : Type 0} (rest_mapping : GroupVersionKind → Option Resource)
    (new_client : Option Client) (watch_of : Client → Resource → Start) where
  -- the startWatch of the configuration, or one by the dynamic client
  unfoldable pub start_watch_of : GroupVersionKind → Option Start → Option Start
  start_watch_of gvk (some start) = some start
  start_watch_of gvk none = do
    resource ← rest_mapping gvk
    client ← new_client
    some (watch_of client resource)

  -- func createWatcher
  unfoldable pub create_watcher : Option Start → GroupVersionKind → Option (Created Start)
  create_watcher configured gvk = do
    start ← start_watch_of gvk configured
    some (record { gvk = gvk; start_watch = start; lifecycle = new_filtered })

  created-is_some :
      (gvk : GroupVersionKind)
      → is_some (create_watcher none gvk) ≡ (is_some (rest_mapping gvk) && is_some new_client)
  unfolding create_watcher start_watch_of
  created-is_some gvk = ground arith

  module _ (m : Manager (Created Start)) (wanted : GvkSet) where
    watched_after :
        (k : GroupVersionKind)
        → is_watched (update_watches (create_watcher none) m wanted).manager k ≡ (
            KeySet.member wanted k
            && (is_watched m k || (is_some (rest_mapping k) && is_some new_client)))
    unfolding is_watched
    watched_after k =
        ground (arith, get-update_watches (create_watcher none) m wanted k, created-is_some k)

    -- With the watchers of createWatcher, UpdateWatches returns no error just when each type of the
    -- argument is watched already, or has a mapping while the dynamic client can be made.
    pub update_watches-mapped : ((update_watches (create_watcher none) m wanted).err ≡ none) ↔ (
        (k : GroupVersionKind)
        → KeySet.member wanted k ≡ true
        → (is_watched m k || (is_some (rest_mapping k) && is_some new_client)) ≡ true)
    update_watches-mapped =
        let (to, from) = update_watches-err_iff (create_watcher none) m wanted in
        (
          λ h k w. ground (arith, to h k w, watched_after k),
          λ h. from (λ k w. ground (arith, h k w, watched_after k)),
        )
