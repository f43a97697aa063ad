-- ===== src/Handler/Throttler/Delivery.antt =====
-- An event that arrives is pushed, by its own goroutine or by one that slept for its object already.
use kpt_resource_group.Base.{
  ℕ, zero, suc, ◌≡◌, refl, ◌∙◌, ap, Bool, true, false, ◌||◌, none, some, List, [], ◌∷◌, map, arith,
  contains, length, ◌==◌,
}
use kpt_resource_group.Api.{NamespacedName, named_eq}
use kpt_resource_group.Handler.Throttler.{
  sleeping, pushed, Goroutine, Throttler, generic, advance, Move, creates, updates, deletes,
  on_create, on_update, on_delete, arrives, goes_on, make_move, make_moves,
}
use kpt_resource_group.Handler.Throttler.Invariant.{objects, IsThrottled, make_move-IsThrottled}
use kpt_resource_group.Handler.Throttler.Drain.{
  asleep, work, pushes_to, queue-take_effect, take_effect_goroutines, step_queue, schedule_queue,
  IsSchedule, drained,
}

-- Whether a goroutine has pushed the object and has yet to delete its entry.
unfoldable pub leaving : List Goroutine → NamespacedName → Bool
leaving [] o = false
leaving ((r, sleeping) ∷ gs) o = leaving gs o
leaving ((r, pushed) ∷ gs) o = r == o || leaving gs o

-- Whether an event for the object is among the moves.
abbrev pub arrives_in : List Move → NamespacedName → Bool
arrives_in [] o = false
arrives_in (arrives (some r) ∷ xs) o = r == o || arrives_in xs o
arrives_in (x ∷ xs) o = arrives_in xs o

-- a goroutine sleeps or leaves
asleep_or_leaving :
    (gs : List Goroutine) (o : NamespacedName)
    → contains (objects gs) o ≡ (asleep gs o || leaving gs o)
unfolding asleep leaving contains
asleep_or_leaving [] o = refl
asleep_or_leaving ((r, sleeping) ∷ gs) o = ground (arith, asleep_or_leaving gs o)
asleep_or_leaving ((r, pushed) ∷ gs) o = ground (arith, asleep_or_leaving gs o)

-- who leaves after a step was pushed by it or left before
leaving-advance :
    (n : ℕ) (gs : List Goroutine) (o : NamespacedName)
    → leaving (advance n gs).1 o ≡ true
    → (pushes_to (advance n gs).0 o || leaving gs o) ≡ true
unfolding leaving advance
leaving-advance n [] o h = h
leaving-advance zero ((r, sleeping) ∷ gs) o h = h
leaving-advance zero ((r, pushed) ∷ gs) o h = ground (arith, h)
leaving-advance (suc n) ((r, sleeping) ∷ gs) o h = leaving-advance n gs o h
leaving-advance (suc n) ((r, pushed) ∷ gs) o h = ground (arith, h, leaving-advance n gs o)

-- What holds of an object from some point on: a goroutine that leaves has pushed it since, and once an
-- event for it has arrived, it was pushed since or a goroutine sleeps for it.
pub record IsDelivered (o : NamespacedName) (arrived : Bool) (t : Throttler) : Type 0 where
  pub left : leaving t.goroutines o ≡ true → contains t.queue o ≡ true
  pub waits : arrived ≡ true → (contains t.queue o || asleep t.goroutines o) ≡ true

module _ (o : NamespacedName) (b : Bool) (t : Throttler) where
  generic-IsDelivered :
      (r : NamespacedName)
      → IsThrottled t
      → IsDelivered o b t
      → IsDelivered o (r == o || b) (generic t (some r))
  unfolding generic asleep leaving
  generic-IsDelivered r v d = record {
    left = ground (arith, d.left);
    waits = ground (
      arith,
      d.left,
      d.waits,
      v.marked r,
      asleep_or_leaving t.goroutines r,
      named_eq.equals_iff r o,
    );
  }

  generic-none : IsDelivered o b t → IsDelivered o b (generic t none)
  unfolding generic
  generic-none d = d

  goes_on-IsDelivered : (n : ℕ) → IsDelivered o b t → IsDelivered o b (make_move t (goes_on n))
  unfolding make_move
  goes_on-IsDelivered n d =
      let (e, gs) = advance n t.goroutines in
      record {
        left = ground (
          arith,
          ap (λ x. leaving x o) (take_effect_goroutines t e gs),
          queue-take_effect t e gs o,
          leaving-advance n t.goroutines o,
          d.left,
        );
        waits = λ h. step_queue t n o ∙ d.waits h;
      }

-- Once an event for the object has arrived, it is pushed or a goroutine sleeps for it from then on.
make_moves_waits :
    (xs : List Move) (o : NamespacedName) (b : Bool) (t : Throttler)
    → IsThrottled t
    → IsDelivered o b t
    → (arrives_in xs o || b) ≡ true
    → let t' = make_moves t xs in (contains t'.queue o || asleep t'.goroutines o) ≡ true
unfolding make_moves make_move on_create on_update on_delete
make_moves_waits [] o b t v d h = d.waits h
make_moves_waits (creates ∷ xs) o b t v d h = make_moves_waits xs o b t v d h
make_moves_waits (updates ∷ xs) o b t v d h = make_moves_waits xs o b t v d h
make_moves_waits (deletes ∷ xs) o b t v d h = make_moves_waits xs o b t v d h
make_moves_waits (arrives none ∷ xs) o b t v d h =
    make_moves_waits xs o b (generic t none) (make_move-IsThrottled t (arrives none) v)
      (generic-none o b t d) h
make_moves_waits (arrives (some r) ∷ xs) o b t v d h =
    make_moves_waits xs o (r == o || b) (generic t (some r))
      (make_move-IsThrottled t (arrives (some r)) v) (generic-IsDelivered o b t r v d)
      (ground (arith, h))
make_moves_waits (goes_on n ∷ xs) o b t v d h =
    make_moves_waits xs o b (make_move t (goes_on n)) (make_move-IsThrottled t (goes_on n) v)
      (goes_on-IsDelivered o b t n d) h

-- the throttler when the requests that were pushed have all been taken from the queue
abbrev pub taken : Throttler → Throttler
taken t = record t { queue = [] }

-- When the queue was emptied, an event for an object that no goroutine is leaving is among the moves,
-- and after them the goroutines take the steps that are left to them, in whatever order, then the
-- object is in the queue.
pub delivered :
    (t : Throttler) (xs : List Move) (ns : List ℕ) (o : NamespacedName)
    → IsThrottled t
    → leaving t.goroutines o ≡ false
    → arrives_in xs o ≡ true
    → IsSchedule ns (make_moves (taken t) xs)
    → length ns ≡ work (make_moves (taken t) xs).goroutines
    → contains (make_moves (make_moves (taken t) xs) (map goes_on ns)).queue o ≡ true
unfolding asleep
delivered t xs ns o v h a s e =
    let t1 = make_moves (taken t) xs in
    let v' : IsThrottled (taken t) = record { distinct = v.distinct; marked = v.marked } in
    let start : IsDelivered o false (taken t) = record { left = λ l. cc; waits = λ w. cc } in
    let waits = make_moves_waits xs o false (taken t) v' start (ground (arith, a)) in
    ground (arith, waits, schedule_queue ns t1 o, ap (λ gs. asleep gs o) ((drained t1 ns s).1.0 e))
