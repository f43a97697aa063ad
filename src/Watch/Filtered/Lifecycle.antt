-- ===== src/Watch/Filtered/Lifecycle.antt =====
-- start and Stop of controllers/watch/filteredwatcher.go, and the goroutine of Run between them. The
-- mutex makes each of them one step; Stop can come at any time, and the API server can end a watch at
-- any time. A watch is named by the number of watches that were opened before it.
pub mod Open
use kpt_resource_group.Base.{
  ℕ, suc, Bool, true, false, Option, none, some, List, [], ◌∷◌, if◌then◌else◌, ◌==◌, nat_eq,
}

-- Where Run is: before start, in the loop over the channel, or returned.
pub data Phase : Type 0 where
  starting reading returned : Phase

-- The guarded fields of the watcher, and the watches that are open at the API server. `none` is the
-- empty watch that NewFiltered puts in.
pub record Lifecycle : Type 0 where
  pub phase : Phase
  pub base : Option ℕ
  pub stopped : Bool
  pub open_watches : List ℕ
  pub opened : ℕ

-- func NewFiltered
unfoldable pub new_filtered : Lifecycle
new_filtered = record {
  phase = starting;
  base = none;
  stopped = false;
  open_watches = [];
  opened = 0;
}

unfoldable pub close : List ℕ → ℕ → List ℕ
close [] i = []
close (j ∷ js) i = let rest = close js i in if j == i then rest else j ∷ rest

-- w.base.Stop()
unfoldable pub stop_base : Lifecycle → Lifecycle
stop_base w = elim w.base [ none ↦ w | some i ↦ record w { open_watches = close w.open_watches i } ]

-- what startWatch answers: a new watch, or an error, with which Run returns
unfoldable pub begin_watch : Lifecycle → Bool → Lifecycle
begin_watch w false = record w { phase = returned }
begin_watch w true = record {
  phase = reading;
  base = some w.opened;
  stopped = w.stopped;
  open_watches = w.opened ∷ w.open_watches;
  opened = suc w.opened;
}

-- func (w *filteredWatcher) start, called by Run
unfoldable pub start : Lifecycle → Bool → Lifecycle
start w ok = if w.stopped then record w { phase = returned } else begin_watch (stop_base w) ok

-- func (w *filteredWatcher) Stop
unfoldable pub stop : Lifecycle → Lifecycle
stop w = record (stop_base w) { stopped = true }

-- A step: Run calls start, Run leaves its loop, since the channel is closed or an event is an error,
-- Stop is called, or the server ends a watch.
pub data Action : Type 0 where
  starts : Bool → Action
  leaves stops : Action
  ends : ℕ → Action

unfoldable pub act : Lifecycle → Action → Lifecycle
act w (starts ok) = elim w.phase [ starting ↦ start w ok | _ ↦ w ]
act w leaves = elim w.phase [ reading ↦ record w { phase = starting } | _ ↦ w ]
act w stops = stop w
act w (ends i) = record w { open_watches = close w.open_watches i }

unfoldable pub acts : Lifecycle → List Action → Lifecycle
acts w [] = w
acts w (x ∷ xs) = acts (act w x) xs
