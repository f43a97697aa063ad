-- ===== src/Handler/Throttler/Drain.antt =====
-- The goroutines come to an end, in whatever order they run.
use kpt_resource_group.Base.{
  ℕ, zero, suc, ◌+◌, ◌≤◌, ◌<◌, ◌≡◌, refl, ◌∙◌, ap, ◌↔◌, Bool, false, ◌||◌, List, [], ◌∷◌, map,
  arith, contains, contains-append, length, ◌==◌,
}
use kpt_resource_group.Api.{NamespacedName, named_eq}
use kpt_resource_group.Handler.Throttler.{
  sleeping, pushed, Goroutine, Throttler, Effect, nothing, pushes, unmarks, advance, take_effect,
  goes_on, make_move, make_moves,
}

-- The steps that are left: two for a goroutine that sleeps, one for one that has pushed.
unfoldable pub work : List Goroutine → ℕ
work [] = 0
work ((r, sleeping) ∷ gs) = suc (suc (work gs))
work ((r, pushed) ∷ gs) = suc (work gs)

-- Whether a goroutine sleeps for the object.
unfoldable pub asleep : List Goroutine → NamespacedName → Bool
asleep [] o = false
asleep ((r, sleeping) ∷ gs) o = r == o || asleep gs o
asleep ((r, pushed) ∷ gs) o = asleep gs o

-- a goroutine that is there takes one of the steps that are left
work-advance : (n : ℕ) (gs : List Goroutine) → n < length gs → suc (work (advance n gs).1) ≡ work gs
unfolding work advance
work-advance n [] h = absurd (omega arith)
work-advance zero ((r, sleeping) ∷ gs) h = refl
work-advance zero ((r, pushed) ∷ gs) h = refl
work-advance (suc n) ((r, sleeping) ∷ gs) h = ground (arith, work-advance n gs)
work-advance (suc n) ((r, pushed) ∷ gs) h = ground (arith, work-advance n gs)

abbrev pub pushes_to : Effect → NamespacedName → Bool
pushes_to (pushes r) o = r == o
pushes_to e o = false

-- who slept is pushed or sleeps on
asleep-advance :
    (n : ℕ) (gs : List Goroutine) (o : NamespacedName)
    → asleep gs o ≡ (pushes_to (advance n gs).0 o || asleep (advance n gs).1 o)
unfolding asleep advance
asleep-advance n [] o = refl
asleep-advance zero ((r, sleeping) ∷ gs) o = refl
asleep-advance zero ((r, pushed) ∷ gs) o = refl
asleep-advance (suc n) ((r, sleeping) ∷ gs) o = ground (arith, asleep-advance n gs o)
asleep-advance (suc n) ((r, pushed) ∷ gs) o = ground (arith, asleep-advance n gs o)

pub take_effect_goroutines :
    (t : Throttler) (e : Effect) (gs : List Goroutine) → (take_effect t (e, gs)).goroutines ≡ gs
unfolding take_effect
take_effect_goroutines t nothing gs = refl
take_effect_goroutines t (pushes r) gs = refl
take_effect_goroutines t (unmarks r) gs = refl

pub queue-take_effect :
    (t : Throttler) (e : Effect) (gs : List Goroutine) (o : NamespacedName)
    → contains (take_effect t (e, gs)).queue o ≡ (contains t.queue o || pushes_to e o)
unfolding take_effect contains
queue-take_effect t nothing gs o = ground arith
queue-take_effect t (pushes r) gs o = ground (arith, contains-append t.queue (r ∷ []) o)
queue-take_effect t (unmarks r) gs o = ground arith

-- The places of the goroutines that go on, each of a goroutine that is there.
abbrev pub IsSchedule : List ℕ → Throttler → Type 0
IsSchedule [] t = Unit {0}
IsSchedule (n ∷ ns) t = (n < length t.goroutines) × IsSchedule ns (make_move t (goes_on n))

module _ (t : Throttler) where
  -- the effects of one step
  step_work :
      (n : ℕ)
      → n < length t.goroutines
      → suc (work (make_move t (goes_on n)).goroutines) ≡ work t.goroutines
  unfolding make_move
  step_work n h =
      ap (λ gs. suc (work gs))
        (take_effect_goroutines t (advance n t.goroutines).0 (advance n t.goroutines).1)
      ∙ work-advance n t.goroutines h

  pub step_queue :
      (n : ℕ) (o : NamespacedName)
      → let t' = make_move t (goes_on n) in
        (contains t'.queue o || asleep t'.goroutines o)
        ≡ (contains t.queue o || asleep t.goroutines o)
  unfolding make_move
  step_queue n o =
      let (e, gs) = advance n t.goroutines in
      ground (
        arith,
        ap (λ x. asleep x o) (take_effect_goroutines t e gs),
        queue-take_effect t e gs o,
        asleep-advance n t.goroutines o,
      )

pub schedule_work :
    (ns : List ℕ) (t : Throttler)
    → IsSchedule ns t
    → length ns + work (make_moves t (map goes_on ns)).goroutines ≡ work t.goroutines
unfolding make_moves
schedule_work [] t s = ground arith
schedule_work (n ∷ ns) t s =
    omega (arith, schedule_work ns (make_move t (goes_on n)) s.1, step_work t n s.0)

pub schedule_queue :
    (ns : List ℕ) (t : Throttler) (o : NamespacedName)
    → let t' = make_moves t (map goes_on ns) in
      (contains t'.queue o || asleep t'.goroutines o)
      ≡ (contains t.queue o || asleep t.goroutines o)
unfolding make_moves
schedule_queue [] t o = refl
schedule_queue (n ∷ ns) t o = schedule_queue ns (make_move t (goes_on n)) o ∙ step_queue t n o

pub none_left : (gs : List Goroutine) → work gs ≡ 0 → gs ≡ []
unfolding work
none_left [] h = refl
none_left ((r, sleeping) ∷ gs) h = absurd (omega (arith, h))
none_left ((r, pushed) ∷ gs) h = absurd (omega (arith, h))

-- Without new events the goroutines end: in whatever order goroutines that are there go on,
-- they take no more steps than are
-- left to them, and have all ended just when they have taken as many. No request is lost on the way:
-- what waited before is in the queue, or waits still.
pub drained :
    (t : Throttler) (ns : List ℕ)
    → IsSchedule ns t
    → let t' = make_moves t (map goes_on ns) in
      (length ns ≤ work t.goroutines)
      × ((length ns ≡ work t.goroutines) ↔ (t'.goroutines ≡ []))
      × ((r : NamespacedName)
          → (contains t'.queue r || asleep t'.goroutines r)
            ≡ (contains t.queue r || asleep t.goroutines r))
unfolding work
drained t ns s = (
  omega (arith, schedule_work ns t s),
  (
    λ e. none_left _ (omega (arith, schedule_work ns t s, e)),
    λ e. omega (arith, schedule_work ns t s, ap work e),
  ),
  λ r. schedule_queue ns t r,
)
