-- ===== src/Watch/Manager.antt =====
-- controllers/watch/manager.go. The mutex makes UpdateWatches one step. A watcher is a value of any
-- type, and `create` stands for createWatcherFunc, whose error is `none`.
pub mod Targets
pub mod Balance
pub mod Account
use kpt_resource_group.Base.{
  ℕ, Bool, true, false, Option, none, some, List, [], ◌∷◌, ◌++◌, if◌then◌else◌,
}
use kpt_resource_group.GoMap.{Map, get, has, put, delete, keys, size}
use kpt_resource_group.KeySet
use kpt_resource_group.KeySet.{KeySet}
use kpt_resource_group.Api.{GroupVersionKind, gvk_eq}

pub record Manager (W : Type 0) : Type 0 where
  pub watcher_map : Map GroupVersionKind W
  pub needs_update : Bool

-- The manager while UpdateWatches runs, with the watchers that were stopped, those that a goroutine
-- was started for, and the types whose watcher could not be created.
pub record Progress (W : Type 0) : Type 0 where
  pub watchers : Map GroupVersionKind W
  pub stopped : List W
  pub started : List W
  pub errs : List GroupVersionKind

-- The manager afterwards, what was stopped and started, and the type that the first error is about.
pub record Updated (W : Type 0) : Type 0 where
  pub manager : Manager W
  pub stopped : List W
  pub started : List W
  pub err : Option GroupVersionKind

-- The argument `gvkMap` is a set of types.
abbrev pub GvkSet : Type 0
GvkSet = KeySet GroupVersionKind

module _ {W : Type 0} where
  -- func NewManager, with the options given
  unfoldable pub new_manager : Manager W
  new_manager = record { watcher_map = []; needs_update = false }

  -- func (m *Manager) stopWatcher
  unfoldable pub stop_watcher : Progress W → GroupVersionKind → Progress W
  stop_watcher p gvk = elim (get p.watchers gvk) [
    | none ↦ p
    | some w ↦ record p { watchers = delete p.watchers gvk; stopped = p.stopped ++ w ∷ [] }
  ]

  -- The loop that stops the obsolete watchers.
  unfoldable pub stop_obsolete : GvkSet → Progress W → List GroupVersionKind → Progress W
  stop_obsolete wanted p [] = p
  stop_obsolete wanted p (gvk ∷ gvks) =
      stop_obsolete wanted (if KeySet.member wanted gvk then p else stop_watcher p gvk) gvks

  module _ (create : GroupVersionKind → Option W) where
    -- func (m *Manager) startWatcher; an error is added to `errs`
    unfoldable pub start_watcher : Progress W → GroupVersionKind → Progress W
    start_watcher p gvk = if has p.watchers gvk then p else elim (create gvk) [
      | none ↦ record p { errs = p.errs ++ gvk ∷ [] }
      | some w ↦ record p { watchers = put p.watchers gvk w; started = p.started ++ w ∷ [] }
    ]

    -- The loop that starts the new watchers.
    unfoldable pub start_new : Progress W → List GroupVersionKind → Progress W
    start_new p [] = p
    start_new p (gvk ∷ gvks) =
        start_new (if has p.watchers gvk then p else start_watcher p gvk) gvks

    -- func (m *Manager) UpdateWatches
    unfoldable pub update_watches : Manager W → GvkSet → Updated W
    update_watches m wanted =
        let begun : Progress W = record {
          watchers = m.watcher_map;
          stopped = [];
          started = [];
          errs = [];
        } in
        let p =
          start_new (stop_obsolete wanted begun (keys m.watcher_map)) (KeySet.to_slice wanted) in
        record {
          manager = record { watcher_map = p.watchers; needs_update = false };
          stopped = p.stopped;
          started = p.started;
          err = elim p.errs [ [] ↦ none | e ∷ es ↦ some e ];
        }

  -- func (m *Manager) runWatcher, when Run has returned: an error drops the entry of the type.
  unfoldable pub run_watcher_returned : Manager W → GroupVersionKind → Bool → Manager W
  run_watcher_returned m gvk failed =
      if failed then record { watcher_map = delete m.watcher_map gvk; needs_update = true } else m

  -- func (m *Manager) NeedsUpdate, IsWatched, Len, watchedGVKs
  unfoldable pub needs_update : Manager W → Bool
  needs_update m = m.needs_update

  unfoldable pub is_watched : Manager W → GroupVersionKind → Bool
  is_watched m gvk = has m.watcher_map gvk

  unfoldable pub watched_count : Manager W → ℕ
  watched_count m = size m.watcher_map

  unfoldable pub watched_gvks : Manager W → List GroupVersionKind
  watched_gvks m = keys m.watcher_map
