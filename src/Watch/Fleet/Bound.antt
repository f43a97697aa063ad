-- ===== src/Watch/Fleet/Bound.antt =====
-- How many watches are open at the API server, against the watchers that the manager knows.
use kpt_resource_group.Base.{
  ℕ, ◌+◌, ◌≤◌, ◌≡◌, refl, ◌⊎◌, ap, Bool, true, false, List, [], ◌∷◌, ◌++◌, arith, contains, length,
  if◌then◌else◌, Bool-cases, inl, inr, ==_refl,
}
use native.Mathlib.Decide.{ℕ_discrete}
use mathlib.Core.Path.{subst}
use mathlib.Core.List.{Perm, foldr}
use mathlib.Core.List.Perm
use kpt_resource_group.GoMap.Values.{values}
use kpt_resource_group.Watch.Filtered.Lifecycle.{Phase, starting, reading, returned, Lifecycle}
use kpt_resource_group.Watch.Filtered.Lifecycle.Open.{Tidy, one_open, none_open}
use kpt_resource_group.Watch.Fleet.{WatcherName, watcher_name_eq, new_fleet, FleetStep, fleet_steps}
use kpt_resource_group.Watch.Fleet.Invariant.{Quiet, fleet_steps-IsSound, new_fleet-IsSound}

-- The watches that are open of some watchers, and how many of those have a Run that has not returned.
abbrev pub open_count : (WatcherName → Lifecycle) → List WatcherName → ℕ
open_count lives ns = foldr (λ n k. length (lives n).open_watches + k) 0 ns

abbrev pub is_running : Lifecycle → Bool
is_running w = elim w.phase [ returned ↦ false | _ ↦ true ]

abbrev pub running_count : (WatcherName → Lifecycle) → List WatcherName → ℕ
running_count lives [] = 0
running_count lives (n ∷ ns) = (if is_running (lives n) then 1 else 0) + running_count lives ns

phase_cases : (p : Phase) → (p ≡ returned) ⊎ ((elim p [ returned ↦ false | _ ↦ true ]) ≡ true)
phase_cases starting = inr refl
phase_cases reading = inr refl
phase_cases returned = inl refl

module _ (lives : WatcherName → Lifecycle) where
  open_count_perm :
      {ms ns : List WatcherName} → Perm ms ns → open_count lives ms ≡ open_count lives ns
  open_count_perm p =
      Perm.foldr-eq (hlevel ℕ_discrete)
        (λ (n : WatcherName) (k : ℕ). length (lives n).open_watches + k) (λ m n k. omega arith) p 0

  open_bound :
      (n : WatcherName)
      → Tidy (lives n)
      → Quiet (lives n)
      → length (lives n).open_watches ≤ (if is_running (lives n) then 1 else 0)
  open_bound n t q = elim (phase_cases (lives n).phase) [
    | inl e ↦ rw (q e) (omega arith)
    | inr e ↦ rw e (one_open (lives n).base (lives n).stopped (lives n).open_watches t)
  ]

  open_count_running :
      (ms ss ds : List WatcherName)
      → ((n : WatcherName) → Tidy (lives n))
      → ((n : WatcherName) → Quiet (lives n))
      → ((n : WatcherName) → contains ss n ≡ true → (lives n).stopped ≡ true)
      → open_count lives (ms ++ (ss ++ ds)) ≤ running_count lives (ms ++ ds)
  unfolding contains
  open_count_running (m ∷ ms) ss ds t q e =
      omega (arith, open_count_running ms ss ds t q e, open_bound m (t m) (q m))
  open_count_running [] (s ∷ ss) ds t q e = omega (
    arith,
    open_count_running [] ss ds t q (λ n h. e n (ground (arith, h))),
    ap length (
        none_open (lives s).base (lives s).stopped (lives s).open_watches
          (e s (ground (arith, ==_refl s))) (t s)),
  )
  open_count_running [] [] [] t q e = omega arith
  open_count_running [] [] (d ∷ ds) t q e =
      omega (arith, open_count_running [] [] ds t q e, open_bound d (t d) (q d))

-- In any history of the manager and of the goroutines of its watchers, and whenever the server ends
-- watches, there are no more watches open at the API server, of all watchers that were ever started,
-- than there are watchers whose Run has not returned among those that the manager holds and those
-- that it dropped from its map when a watcher of their type returned an error. Of a watcher that was
-- stopped none is open.
pub fleet_bounded :
    (xs : List FleetStep)
    → let f = fleet_steps new_fleet xs in
      (open_count f.lives f.account.started
        ≤ running_count f.lives (values f.account.manager.watcher_map ++ f.account.dropped))
      × ((n : WatcherName)
          → (if contains f.account.stopped n then length (f.lives n).open_watches else 0) ≡ 0)
fleet_bounded xs =
    let f = fleet_steps new_fleet xs in
    let s = fleet_steps-IsSound new_fleet xs new_fleet-IsSound in
    let held = values f.account.manager.watcher_map in
    (
      subst (λ k. k ≤ running_count f.lives (held ++ f.account.dropped))
          (open_count_perm f.lives s.balanced.1)
          (open_count_running f.lives held f.account.stopped f.account.dropped s.tidy s.quiet
            s.ended),
      λ n. elim (Bool-cases (contains f.account.stopped n)) [
        | inl h ↦ rw h (ap length (none_open _ _ _ (s.ended n h) (s.tidy n)))
        | inr h ↦ rw h refl
      ],
    )
