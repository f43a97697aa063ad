-- ===== src/Watch/Filtered/Run.antt =====
-- Run of controllers/watch/filteredwatcher.go: the watches that it starts, one after the other.
use kpt_resource_group.Base.{
  ℕ, suc, Bool, true, false, Option, none, some, List, [], ◌∷◌, ◌++◌, String, if◌then◌else◌, ◌==◌,
  string_eq,
}
use Prim.Native.String.{◌++◌ as append}
use kpt_resource_group.Api.{NamespacedName, Time}
use kpt_resource_group.Status.{Objects}
use kpt_resource_group.Watch.Filtered.{
  Watcher, Event, Handled, ErrorsApi, handle, prune_errors, add_error, wait_until_next_retry,
  error_id, watch_event_error_type,
}

-- The local variables of Run, the milliseconds that it has slept, and the groups that got an event.
pub record Position : Type 0 where
  pub watcher : Watcher
  pub resource_version : String
  pub retries : ℕ
  pub waits : List ℕ
  pub sent : List NamespacedName

-- Why Run returns, if it does.
pub data Exit : Type 0 where
  stop_called start_failed still_running : Exit

-- The end of Run: where it stands, and the versions at which it asked for a watch.
pub record Ended : Type 0 where
  pub position : Position
  pub requests : List String
  pub exit : Exit

-- the variables with which Run begins
abbrev pub begin_run : Watcher → Position
begin_run w = record { watcher = w; resource_version = ""; retries = 0; waits = []; sent = [] }

module _ (objects : Objects) (errors : ErrorsApi) where
  open errors use {Err, is_expired}

  abbrev pub Delivery : Type 0
  Delivery = List (Time × Event objects.Object Err)

  -- A watch that start asks for: what it delivers until its channel closes, and whether Stop is
  -- called before the next start.
  pub record Session : Type 0 where
    pub delivery : Option Delivery
    pub stops : Bool

  -- an event that ends the watch
  unfoldable pub after_error : Time → Position → Watcher → Err → Position
  after_error now p w e = record {
    watcher = if is_expired e then w else record w {
      error_tracker =
          (add_error now w.error_tracker (append watch_event_error_type (error_id errors e))).1;
    };
    resource_version = if is_expired e then "" else p.resource_version;
    retries = suc p.retries;
    waits = p.waits ++ wait_until_next_retry (suc p.retries) ∷ [];
    sent = p.sent;
  }

  -- an event that was handled
  unfoldable pub after_event : Position → Handled Err → Position
  after_event p h = record {
    watcher = h.watcher;
    resource_version = if h.new_version == "" then p.resource_version else h.new_version;
    retries = 0;
    waits = p.waits;
    sent = p.sent ++ h.events;
  }

  abbrev pub pruned : Time → Watcher → Watcher
  pruned now w = record w { error_tracker = prune_errors now w.error_tracker }

  -- The loop over the channel of one watch.
  unfoldable pub run_events : Delivery → Position → Position
  run_events [] p = p
  run_events ((now, e) ∷ rest) p =
      let h = handle objects errors now (pruned now p.watcher) e in
      elim h.err [
        | some err ↦ after_error now p h.watcher err
        | none ↦ run_events rest (after_event p h)
      ]

  -- func (w *filteredWatcher) Run, which start opens each time, until Stop was called
  unfoldable pub run : List Session → Position → Bool → Ended
  run ss p true = record { position = p; requests = []; exit = stop_called }
  run [] p false = record { position = p; requests = []; exit = still_running }
  run (s ∷ ss) p false = elim s.delivery [
    | none ↦ record { position = p; requests = p.resource_version ∷ []; exit = start_failed }
    | some events ↦
        let rest = run ss (run_events events p) s.stops in
        record rest { requests = p.resource_version ∷ rest.requests }
  ]
