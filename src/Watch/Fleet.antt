-- ===== src/Watch/Fleet.antt =====
-- controllers/watch/manager.go and controllers/watch/filteredwatcher.go together: the manager, and the
-- watchers that it creates, each with its goroutine and its watches. The manager's mutex makes
-- UpdateWatches one step, with the calls of Stop in it; between the steps of the manager every
-- goroutine goes on as it likes.
pub mod Invariant
pub mod Bound
pub mod Tests
use kpt_resource_group.Base.{
  ℕ, suc, ◌≡◌, ◌↔◌, ap, refl, Bool, true, false, ◌&&◌, Option, none, some, List, [], ◌∷◌, arith, Eq,
  contains, ◌==◌, nat_eq, if◌then◌else◌,
}
use kpt_resource_group.Api.{GroupVersionKind, gvk_eq}
use kpt_resource_group.Watch.Manager.{GvkSet, Updated, update_watches}
use kpt_resource_group.Watch.Manager.Account.{Account, updates, returns, account, new_account}
use kpt_resource_group.Watch.Filtered.Lifecycle.{
  Phase, starting, reading, returned, Lifecycle, new_filtered, stop, starts, leaves, ends, Action,
  act,
}

-- A watcher is named by its type and the number of calls of UpdateWatches before the one that created
-- it, since createWatcherFunc returns a new watcher each time.
pub record WatcherName : Type 0 where
  pub calls : ℕ
  pub gvk : GroupVersionKind

pub watcher_name_iff :
    (a b : WatcherName) → ((a.calls == b.calls && a.gvk == b.gvk) ≡ true) ↔ (a ≡ b)
watcher_name_iff a b =
    ground (arith, nat_eq.equals_iff a.calls b.calls, gvk_eq.equals_iff a.gvk b.gvk)

instance unfoldable pub watcher_name_eq : Eq WatcherName
watcher_name_eq = record {
  equals = λ a b. a.calls == b.calls && a.gvk == b.gvk;
  equals_iff = watcher_name_iff;
}

-- The manager with its account, the number of calls so far, and where each watcher stands; one that
-- was not created yet stands as NewFiltered leaves it.
pub record Fleet : Type 0 where
  pub account : Account WatcherName
  pub calls : ℕ
  pub lives : WatcherName → Lifecycle

abbrev pub new_fleet : Fleet
new_fleet = record { account = new_account; calls = 0; lives = λ n. new_filtered }

-- Stop is called on each of the watchers.
unfoldable pub stop_all : (WatcherName → Lifecycle) → List WatcherName → WatcherName → Lifecycle
stop_all lives [] m = lives m
stop_all lives (n ∷ ns) m = stop_all (λ k. if n == k then stop (lives k) else lives k) ns m

-- createWatcherFunc, in the call with this number, for the types that it has no error for
abbrev pub new_watcher : ℕ → (GroupVersionKind → Bool) → GroupVersionKind → Option WatcherName
new_watcher k ok gvk = if ok gvk then some (record { calls = k; gvk = gvk }) else none

-- A step: UpdateWatches is called, Run of a watcher calls start, Run leaves its loop, the server ends a
-- watch, or a goroutine goes on after Run has returned, with an error or without.
pub data FleetStep : Type 0 where
  calls_update : (GroupVersionKind → Bool) → GvkSet → FleetStep
  calls_start : WatcherName → Bool → FleetStep
  leaves_loop : WatcherName → FleetStep
  server_ends : WatcherName → ℕ → FleetStep
  has_returned : WatcherName → Bool → FleetStep

-- A watcher that was started takes a step.
unfoldable pub act_of : Fleet → WatcherName → Action → Fleet
act_of f n x =
    if contains f.account.started n
    then record f { lives = λ k. if n == k then act (f.lives k) x else f.lives k }
    else f

unfoldable pub fleet_step : Fleet → FleetStep → Fleet
fleet_step f (calls_update ok wanted) =
    let u = update_watches (new_watcher f.calls ok) f.account.manager wanted in
    record {
      account = account f.account (updates (new_watcher f.calls ok) wanted);
      calls = suc f.calls;
      lives = stop_all f.lives u.stopped;
    }
fleet_step f (calls_start n ok) = act_of f n (starts ok)
fleet_step f (leaves_loop n) = act_of f n leaves
fleet_step f (server_ends n i) = act_of f n (ends i)
fleet_step f (has_returned n failed) = elim (f.lives n).phase [
  | returned ↦ record f { account = account f.account (returns n.gvk failed) }
  | _ ↦ f
]

unfoldable pub fleet_steps : Fleet → List FleetStep → Fleet
fleet_steps f [] = f
fleet_steps f (x ∷ xs) = fleet_steps (fleet_step f x) xs
