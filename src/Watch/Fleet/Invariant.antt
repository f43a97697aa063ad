-- ===== src/Watch/Fleet/Invariant.antt =====
-- What holds of the manager and its watchers at every time.
use kpt_resource_group.Base.{
  ◌≡◌, refl, Bool, true, false, ◌||◌, List, [], ◌∷◌, arith, contains, contains-append, ◌==◌,
  if◌then◌else◌, Bool-cases, inl, inr, if_true, if_false, sym,
}
use mathlib.Core.Path.{subst}
use mathlib.Core.List.Perm
use kpt_resource_group.Watch.Manager.Account.{
  IsBalanced, account-IsBalanced, updates, returns, account, new_account,
}
use kpt_resource_group.Watch.Manager.{update_watches, new_manager}
use kpt_resource_group.Watch.Filtered.Lifecycle.{
  starting, reading, returned, Lifecycle, new_filtered, stop, Action, starts, leaves, ends, stops,
  close, act, stop_base, start, begin_watch,
}
use kpt_resource_group.Watch.Filtered.Lifecycle.Open.{
  Tidy, act-IsStopped, act-Tidy, none_open, stop_base-none,
}
use kpt_resource_group.Watch.Fleet.{
  WatcherName, watcher_name_eq, Fleet, new_fleet, stop_all, FleetStep, calls_update, calls_start,
  leaves_loop, server_ends, has_returned, act_of, fleet_step, fleet_steps, new_watcher,
}

-- Nothing is open once Run has returned.
abbrev pub Quiet : Lifecycle → Type 0
Quiet w = w.phase ≡ returned → w.open_watches ≡ []

begin_watch-Quiet : (w : Lifecycle) (ok : Bool) → w.open_watches ≡ [] → Quiet (begin_watch w ok)
unfolding begin_watch
begin_watch-Quiet w false h e = h
begin_watch-Quiet w true h e = cc

start-Quiet : (w : Lifecycle) (ok : Bool) → Tidy w → Quiet (start w ok)
unfolding start
start-Quiet w ok t = elim (Bool-cases w.stopped) [
  | inl s ↦ subst Quiet (sym (if_true _ _ s)) (λ e. none_open w.base w.stopped w.open_watches s t)
  | inr s ↦
      subst Quiet (sym (if_false _ _ s)) (begin_watch-Quiet (stop_base w) ok (stop_base-none w t))
]

act-Quiet : (w : Lifecycle) (x : Action) → Tidy w → Quiet w → Quiet (act w x)
unfolding act stop close
act-Quiet w (starts ok) t q =
    elim w.phase as (λ p. Quiet (elim p [ starting ↦ start w ok | _ ↦ w ])) [
      | starting ↦ start-Quiet w ok t
      | _ ↦ q
    ]
act-Quiet w leaves t q =
    elim w.phase as (λ p. Quiet (elim p [ reading ↦ record w { phase = starting } | _ ↦ w ])) [
      | reading ↦ λ e. cc
      | _ ↦ q
    ]
act-Quiet w stops t q = λ e. stop_base-none w t
act-Quiet w (ends i) t q = λ e. rw (q e) refl

act_stopped : (w : Lifecycle) (x : Action) → w.stopped ≡ true → (act w x).stopped ≡ true
act_stopped w x h = (act-IsStopped w.opened w x (h, refl)).0

-- What holds at every time: the account is balanced, no watcher has a watch open but its base, none has
-- once its Run has returned, and Stop was called on all that the manager stopped.
pub record IsSound (f : Fleet) : Type 0 where
  pub balanced : IsBalanced f.account
  pub tidy : (n : WatcherName) → Tidy (f.lives n)
  pub quiet : (n : WatcherName) → Quiet (f.lives n)
  pub ended : (n : WatcherName) → contains f.account.stopped n ≡ true → (f.lives n).stopped ≡ true

choice_keeps :
    (P : Lifecycle → Type 0) (b : Bool) (v w : Lifecycle) → P v → P w → P (if b then v else w)
choice_keeps P true v w h k = h
choice_keeps P false v w h k = k

-- A property of watchers that Stop keeps holds of all after the call.
stop_all_keeps :
    (P : Lifecycle → Type 0)
    → ((w : Lifecycle) → P w → P (stop w))
    → (lives : WatcherName → Lifecycle) (ns : List WatcherName) (m : WatcherName)
    → ((k : WatcherName) → P (lives k))
    → P (stop_all lives ns m)
unfolding stop_all
stop_all_keeps P keeps lives [] m h = h m
stop_all_keeps P keeps lives (n ∷ ns) m h =
    stop_all_keeps P keeps (λ k. if n == k then stop (lives k) else lives k) ns m
      (λ k. choice_keeps P (n == k) (stop (lives k)) (lives k) (keeps (lives k) (h k)) (h k))

stop_all_stops :
    (lives : WatcherName → Lifecycle) (ns : List WatcherName) (m : WatcherName)
    → ((lives m).stopped || contains ns m) ≡ true
    → (stop_all lives ns m).stopped ≡ true
unfolding stop_all contains stop
stop_all_stops lives [] m h = ground (arith, h)
stop_all_stops lives (n ∷ ns) m h =
    stop_all_stops (λ k. if n == k then stop (lives k) else lives k) ns m (ground (arith, h))

act_of-IsSound : (f : Fleet) (n : WatcherName) (x : Action) → IsSound f → IsSound (act_of f n x)
unfolding act_of
act_of-IsSound f n x s = elim (Bool-cases (contains f.account.started n)) [
  | inl h ↦ rw h (record {
    balanced = s.balanced;
    tidy = λ m.
        choice_keeps Tidy (n == m) (act (f.lives m) x) (f.lives m)
          (act-Tidy (f.lives m) x (s.tidy m)) (s.tidy m);
    quiet = λ m.
        choice_keeps Quiet (n == m) (act (f.lives m) x) (f.lives m)
          (act-Quiet (f.lives m) x (s.tidy m) (s.quiet m)) (s.quiet m);
    ended = λ m e.
        choice_keeps (λ w. w.stopped ≡ true) (n == m) (act (f.lives m) x) (f.lives m)
          (act_stopped (f.lives m) x (s.ended m e)) (s.ended m e);
  })
  | inr h ↦ rw h s
]

fleet_step-IsSound : (f : Fleet) (x : FleetStep) → IsSound f → IsSound (fleet_step f x)
unfolding fleet_step account act
fleet_step-IsSound f (calls_update ok wanted) s =
    let u = update_watches (new_watcher f.calls ok) f.account.manager wanted in
    let sound : (m : WatcherName)
        → Tidy (stop_all f.lives u.stopped m) × Quiet (stop_all f.lives u.stopped m) =
      λ m.
        stop_all_keeps (λ w. Tidy w × Quiet w)
          (λ w q. (act-Tidy w stops q.0, act-Quiet w stops q.0 q.1)) f.lives u.stopped m
          (λ k. (s.tidy k, s.quiet k)) in
    record {
      balanced = account-IsBalanced f.account (updates (new_watcher f.calls ok) wanted) s.balanced;
      tidy = λ m. (sound m).0;
      quiet = λ m. (sound m).1;
      ended = λ m h.
          stop_all_stops f.lives u.stopped m
            (ground (arith, h, s.ended m, contains-append f.account.stopped u.stopped m));
    }
fleet_step-IsSound f (calls_start n ok) s = act_of-IsSound f n (starts ok) s
fleet_step-IsSound f (leaves_loop n) s = act_of-IsSound f n leaves s
fleet_step-IsSound f (server_ends n i) s = act_of-IsSound f n (ends i) s
fleet_step-IsSound f (has_returned n failed) s =
    elim (f.lives n).phase
      as (λ p. IsSound (elim p [
        | returned ↦ record f { account = account f.account (returns n.gvk failed) }
        | _ ↦ f
      ])) [
        | returned ↦ record {
          balanced = account-IsBalanced f.account (returns n.gvk failed) s.balanced;
          tidy = s.tidy;
          quiet = s.quiet;
          ended = s.ended;
        }
        | _ ↦ s
      ]

pub fleet_steps-IsSound : (f : Fleet) (xs : List FleetStep) → IsSound f → IsSound (fleet_steps f xs)
unfolding fleet_steps
fleet_steps-IsSound f [] s = s
fleet_steps-IsSound f (x ∷ xs) s =
    fleet_steps-IsSound (fleet_step f x) xs (fleet_step-IsSound f x s)

pub new_fleet-IsSound : IsSound new_fleet
unfolding new_filtered new_manager new_account contains
new_fleet-IsSound = record {
  balanced = (tt, Perm.refl []);
  tidy = λ n. refl;
  quiet = λ n e. refl;
  ended = λ n h. cc;
}
