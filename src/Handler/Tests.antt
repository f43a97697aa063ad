-- ===== src/Handler/Tests.antt =====
-- The event handlers on small inputs, and the theorems at those inputs.
use kpt_resource_group.Handler.Throttler.Drain.{drained, work, asleep}
use kpt_resource_group.Base.{
  map, ◌≤◌, ◌↔◌, ◌||◌, arith, ◌≡◌, refl, true, List, [], ◌∷◌, none, some, if◌then◌else◌, contains,
  ◌==◌, ◌&&◌,
}
use kpt_resource_group.Api.{NamespacedName, ObjMetadata, gk, gk_eq, named_eq, meta_eq}
use kpt_resource_group.ResourceMap.{get_status, has_resource}
use kpt_resource_group.ResourceMap.Links.{IsConsistent, listed}
use kpt_resource_group.ResourceMap.Tests.{shared, shared-IsConsistent, group_a, group_b, deployment}
use kpt_resource_group.Handler.Events.{enqueue_crd_event}
use kpt_resource_group.Handler.Events.Definitions.{enqueue_crd_event_lem}
use kpt_resource_group.Handler.Throttler.{
  Throttler, Move, arrives, goes_on, new_throttler, make_moves, make_move, generic, advance,
  take_effect,
}
use kpt_resource_group.Handler.Throttler.Invariant.{IsThrottled, throttled, generic-ignores}
use kpt_resource_group.GoMap.{get, put}

-- Two events for one group and one for another, while the first goroutine pushes.
abbrev moves : List Move
moves = arrives (some group_a) ∷ arrives (some group_b) ∷ arrives (some group_a) ∷ goes_on 1 ∷ []

throttled_example : IsThrottled (make_moves new_throttler moves)
throttled_example = throttled moves

-- The goroutine of the first group has pushed, and the event that comes now is lost.
generic-ignores_example :
    generic (make_moves new_throttler moves) (some group_a) ≡ make_moves new_throttler moves
unfolding make_moves make_move new_throttler generic advance take_effect contains get put named_eq
generic-ignores_example = generic-ignores moves group_a refl

enqueue_crd_event_lem_example :
    IsConsistent (enqueue_crd_event shared (some (gk deployment))).0
    × ((q : ObjMetadata)
        → get_status (enqueue_crd_event shared (some (gk deployment))).0 q
          ≡ (if gk q == gk deployment && has_resource shared q then none else get_status shared q))
    × ((q : ObjMetadata) (g : NamespacedName)
        → gk q ≡ gk deployment
        → listed shared g q ≡ true
        → contains (enqueue_crd_event shared (some (gk deployment))).1 g ≡ true)
enqueue_crd_event_lem_example = enqueue_crd_event_lem shared (gk deployment) shared-IsConsistent

-- Both goroutines run to their end, the second one first.
abbrev two_asleep : Throttler
two_asleep = make_moves new_throttler (arrives (some group_a) ∷ arrives (some group_b) ∷ [])

drained_example :
    let t' = make_moves two_asleep (map goes_on (1 ∷ 0 ∷ 1 ∷ 0 ∷ [])) in
    (4 ≤ work two_asleep.goroutines)
    × ((4 ≡ work two_asleep.goroutines) ↔ (t'.goroutines ≡ []))
    × ((r : NamespacedName)
        → (contains t'.queue r || asleep t'.goroutines r)
          ≡ (contains two_asleep.queue r || asleep two_asleep.goroutines r))
unfolding make_moves make_move new_throttler generic advance take_effect contains get put named_eq
drained_example =
    drained two_asleep (1 ∷ 0 ∷ 1 ∷ 0 ∷ [])
      (omega arith, (omega arith, (omega arith, (omega arith, tt))))
