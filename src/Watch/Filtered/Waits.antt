-- ===== src/Watch/Filtered/Waits.antt =====
-- How long Run sleeps after the errors of its watches.
use kpt_resource_group.Base.{
  ℕ, suc, ◌^◌, ◌≤◌, ◌≡◌, refl, ◌∙◌, ap, sym, Bool, true, false, none, some, List, [], ◌∷◌, ◌++◌,
  arith, if◌then◌else◌, ltb, string_eq, Option-cases, inl, inr,
}
use native.Mathlib.Nat
use mathlib.Core.Path.{subst}
use mathlib.Core.List.{append_assoc, append-nil}
use kpt_resource_group.Status.{Objects}
use kpt_resource_group.Watch.Filtered.{Watcher, ErrorsApi, handle, wait_until_next_retry}
use kpt_resource_group.Watch.Filtered.Run.{
  Position, Delivery, Session, run_events, after_error, after_event, pruned, run, begin_run,
}
use kpt_resource_group.Watch.Filtered.Versions.{event_error, handle_version, next}

-- The sleeps for a sequence of events, true for an error, after so many errors in a row: two
-- milliseconds after the first, twice as long after each that follows, and no longer from the
-- eighteenth on.
abbrev pub backoff : List Bool → ℕ → List ℕ
backoff [] k = []
backoff (false ∷ es) k = backoff es 0
backoff (true ∷ es) k = 2 ^ (if ltb 17 k then 18 else suc k) ∷ backoff es (suc k)

-- the errors in a row at the end of the sequence
abbrev pub streak : List Bool → ℕ → ℕ
streak [] k = k
streak (false ∷ es) k = streak es 0
streak (true ∷ es) k = streak es (suc k)

abbrev pub AllBetween : ℕ → ℕ → List ℕ → Type 0
AllBetween a b [] = Unit {0}
AllBetween a b (x ∷ xs) = (a ≤ x) × (x ≤ b) × AllBetween a b xs

backoff-append :
    (ds es : List Bool) (k : ℕ) → backoff (ds ++ es) k ≡ backoff ds k ++ backoff es (streak ds k)
backoff-append [] es k = refl
backoff-append (false ∷ ds) es k = backoff-append ds es 0
backoff-append (true ∷ ds) es k =
    ap (λ ws. 2 ^ (if ltb 17 k then 18 else suc k) ∷ ws) (backoff-append ds es (suc k))

wait_bounds : (j : ℕ) → 1 ≤ j → j ≤ 18 → (2 ≤ 2 ^ j) × (2 ^ j ≤ 262144)
wait_bounds j l h = (
  Nat.pow-le-pow_right {n = 2} (omega arith) {i = 1} {j = j} l,
  Nat.pow-le-pow_right {n = 2} (omega arith) {i = j} {j = 18} h,
)

backoff_bounds : (es : List Bool) (k : ℕ) → AllBetween 2 262144 (backoff es k)
backoff_bounds [] k = tt
backoff_bounds (false ∷ es) k = backoff_bounds es 0
backoff_bounds (true ∷ es) k =
    let (low, high) = wait_bounds (if ltb 17 k then 18 else suc k) (ground arith) (ground arith) in
    (low, high, backoff_bounds es (suc k))

wait_lem : (k : ℕ) → wait_until_next_retry (suc k) ≡ 2 ^ (if ltb 17 k then 18 else suc k)
unfolding wait_until_next_retry
wait_lem k = ground arith

module _ (objects : Objects) (errors : ErrorsApi) where
  open objects use {Object}
  open errors use {Err}

  -- The events of one watch that Run handles: all up to the first error, and that one.
  abbrev pub handled_events : Delivery objects errors → List Bool
  handled_events [] = []
  handled_events ((now, e) ∷ rest) = elim (event_error objects errors e) [
    | some err ↦ true ∷ []
    | none ↦ false ∷ handled_events rest
  ]

  -- The events of all watches up to the first that does not start, or that Stop ends.
  abbrev pub all_handled : List (Session objects errors) → Bool → List Bool
  all_handled ss true = []
  all_handled [] false = []
  all_handled (s ∷ ss) false = elim s.delivery [
    | none ↦ []
    | some ds ↦ handled_events ds ++ all_handled ss s.stops
  ]

  -- what the loop over one watch adds
  abbrev AddsWaits : List Bool → Position → Position → Type 0
  AddsWaits es p q = (q.waits ≡ p.waits ++ backoff es p.retries) × (q.retries ≡ streak es p.retries)

  run_events-AddsWaits :
      (ds : Delivery objects errors) (p : Position)
      → AddsWaits (handled_events ds) p (run_events objects errors ds p)
  unfolding run_events after_error after_event
  run_events-AddsWaits [] p = (sym (append-nil p.waits), refl)
  run_events-AddsWaits ((now, e) ∷ rest) p =
      let h = handle objects errors now (pruned objects errors now p.watcher) e in
      let (version, err) =
        handle_version objects errors now (pruned objects errors now p.watcher) e in
      subst
        (λ o. AddsWaits (handled_events ((now, e) ∷ rest)) p (next objects errors now rest p h o))
        (sym err)
        (elim (event_error objects errors e)
          as (λ o.
            AddsWaits (elim o [ some x ↦ true ∷ [] | none ↦ false ∷ handled_events rest ]) p
              (next objects errors now rest p h o)) [
                | some x ↦ (ap (λ w. p.waits ++ (w ∷ [])) (wait_lem p.retries), refl)
                | none ↦ run_events-AddsWaits rest (after_event objects errors p h)
              ])

  run_waits :
      (ss : List (Session objects errors)) (p : Position) (stopped : Bool)
      → (run objects errors ss p stopped).position.waits
        ≡ p.waits ++ backoff (all_handled ss stopped) p.retries
  unfolding run
  run_waits ss p true = sym (append-nil p.waits)
  run_waits [] p false = sym (append-nil p.waits)
  run_waits (s ∷ ss) p false = elim (Option-cases s.delivery) [
    | inl e ↦ rw (e, run, all_handled, append-nil p.waits) refl
    | inr (ds, e) ↦
        let q = run_events objects errors ds p in
        let (waits, retries) = run_events-AddsWaits ds p in
        rw (e, run, all_handled)
          (run_waits ss q s.stops
            ∙ (λ i. waits i ++ backoff (all_handled ss s.stops) (retries i))
            ∙ append_assoc p.waits (backoff (handled_events ds) p.retries) _
            ∙ ap (λ ws. p.waits ++ ws)
                (sym (backoff-append (handled_events ds) (all_handled ss s.stops) p.retries)))
  ]

  -- Run sleeps after each error event and at no other time: two milliseconds after the first, twice
  -- as long after each error that follows on it, and as long as after the eighteenth from then on,
  -- where an event that is no error starts the count again and a new watch does not. So each sleep is
  -- of 2 to 262144 milliseconds.
  pub run_waits_bounded :
      (ss : List (Session objects errors)) (w : Watcher) (stopped : Bool)
      → ((run objects errors ss (begin_run w) stopped).position.waits
          ≡ backoff (all_handled ss stopped) 0)
        × AllBetween 2 262144 (run objects errors ss (begin_run w) stopped).position.waits
  run_waits_bounded ss w stopped =
      let waits = run_waits ss (begin_run w) stopped in
      (waits, subst (AllBetween 2 262144) (sym waits) (backoff_bounds (all_handled ss stopped) 0))
