-- ===== src/Handler/Throttler/Invariant.antt =====
-- The mapping holds the objects of the goroutines, each of which is of another object.
use mathlib.Core.Path.{subst}
use kpt_resource_group.Base.{
  ◌++◌, sym, if_false, ==_refl, ℕ, zero, suc, ◌≡◌, refl, ap, ◌∙◌, Bool, true, false, not, ◌&&◌,
  ◌||◌, Option, none, some, List, [], ◌∷◌, map, arith, contains, IsDistinct, ◌==◌,
}
use kpt_resource_group.GoMap.{get, has, put}
use kpt_resource_group.GoMap.Laws.{has-put, has-delete}
use kpt_resource_group.Api.{NamespacedName, named_eq}
use kpt_resource_group.Handler.Throttler.{
  sleeping, pushed, Goroutine, Throttler, new_throttler, generic, Effect, nothing, pushes, unmarks,
  advance, take_effect, Move, creates, updates, deletes, on_create, on_update, on_delete, arrives,
  goes_on, make_move, make_moves,
}

abbrev pub objects : List Goroutine → List NamespacedName
objects gs = map (λ g. g.0) gs

pub record IsThrottled (t : Throttler) : Type 0 where
  pub distinct : IsDistinct (objects t.goroutines)
  pub marked : (r : NamespacedName) → has t.mapping r ≡ contains (objects t.goroutines) r

-- Whether a goroutine for the object remains, after a step with this effect.
abbrev remains : Effect → Bool → NamespacedName → Bool
remains (unmarks o) b r = not (o == r) && b
remains e b r = b

-- an entry that is deleted is of an object that had a goroutine
has_goroutine :
    (n : ℕ) (gs : List Goroutine) (o : NamespacedName)
    → (advance n gs).0 ≡ unmarks o
    → contains (objects gs) o ≡ true
unfolding advance contains
has_goroutine n [] o e = cc
has_goroutine zero ((r, sleeping) ∷ gs) o e = cc
has_goroutine zero ((r, pushed) ∷ gs) o e = ground (arith, named_eq.equals_iff r o)
has_goroutine (suc n) ((r, p) ∷ gs) o e = ground (arith, has_goroutine n gs o e)

-- the step of another goroutine keeps the one in front
remains_front :
    (e : Effect) (o r : NamespacedName) (b : Bool)
    → ((x : NamespacedName) → e ≡ unmarks x → (o == x) ≡ false)
    → (o == r || remains e b r) ≡ remains e (o == r || b) r
remains_front nothing o r b h = refl
remains_front (pushes x) o r b h = refl
remains_front (unmarks x) o r b h =
    ground
      (arith, h x refl, named_eq.equals_iff x r, named_eq.equals_iff o r, named_eq.equals_iff o x)

contains-advance :
    (n : ℕ) (gs : List Goroutine) (r : NamespacedName)
    → IsDistinct (objects gs)
    → contains (objects (advance n gs).1) r ≡ remains (advance n gs).0 (contains (objects gs) r) r
unfolding advance contains
contains-advance n [] r d = ground arith
contains-advance zero ((o, sleeping) ∷ gs) r d = ground arith
contains-advance zero ((o, pushed) ∷ gs) r d = ground (arith, named_eq.equals_iff o r)
contains-advance (suc n) ((o, p) ∷ gs) r d =
    ap (λ b. o == r || b) (contains-advance n gs r d.1)
    ∙ remains_front (advance n gs).0 o r (contains (objects gs) r)
        (λ x e. ground (arith, has_goroutine n gs x e, named_eq.equals_iff o x, d.0))

advance-IsDistinct :
    (n : ℕ) (gs : List Goroutine) → IsDistinct (objects gs) → IsDistinct (objects (advance n gs).1)
unfolding advance contains
advance-IsDistinct n [] d = tt
advance-IsDistinct zero ((o, sleeping) ∷ gs) d = d
advance-IsDistinct zero ((o, pushed) ∷ gs) d = d.1
advance-IsDistinct (suc n) ((o, p) ∷ gs) d =
    ground (arith, advance-IsDistinct n gs d.1, contains-advance n gs o d.1)

generic-IsThrottled :
    (t : Throttler) (evt : Option NamespacedName) → IsThrottled t → IsThrottled (generic t evt)
unfolding generic contains
generic-IsThrottled t none v = v
generic-IsThrottled t (some r) v = record {
  distinct = ground (arith, v.distinct, v.marked r);
  marked = λ o. ground (arith, v.marked o, has-put t.mapping r tt o);
}

take_effect-IsThrottled :
    (t : Throttler) (e : Effect) (gs : List Goroutine)
    → IsThrottled t
    → IsDistinct (objects gs)
    → ((r : NamespacedName)
        → contains (objects gs) r ≡ remains e (contains (objects t.goroutines) r) r)
    → IsThrottled (take_effect t (e, gs))
unfolding take_effect
take_effect-IsThrottled t nothing gs v d h = record {
  distinct = d;
  marked = λ r. ground (arith, v.marked r, h r);
}
take_effect-IsThrottled t (pushes o) gs v d h = record {
  distinct = d;
  marked = λ r. ground (arith, v.marked r, h r);
}
take_effect-IsThrottled t (unmarks o) gs v d h = record {
  distinct = d;
  marked = λ r. ground (arith, v.marked r, h r, has-delete t.mapping o r);
}

pub make_move-IsThrottled : (t : Throttler) (x : Move) → IsThrottled t → IsThrottled (make_move t x)
unfolding make_move on_create on_update on_delete
make_move-IsThrottled t creates v = v
make_move-IsThrottled t updates v = v
make_move-IsThrottled t deletes v = v
make_move-IsThrottled t (arrives evt) v = generic-IsThrottled t evt v
make_move-IsThrottled t (goes_on n) v =
    take_effect-IsThrottled t (advance n t.goroutines).0 (advance n t.goroutines).1 v
      (advance-IsDistinct n t.goroutines v.distinct)
      (λ r. contains-advance n t.goroutines r v.distinct)

make_moves-IsThrottled :
    (t : Throttler) (xs : List Move) → IsThrottled t → IsThrottled (make_moves t xs)
unfolding make_moves
make_moves-IsThrottled t [] v = v
make_moves-IsThrottled t (x ∷ xs) v =
    make_moves-IsThrottled (make_move t x) xs (make_move-IsThrottled t x v)

-- However events and goroutines interleave, each object has at most one goroutine, so at most one
-- request that waits to be pushed, and the mapping holds just the objects that have one.
pub throttled : (xs : List Move) → IsThrottled (make_moves new_throttler xs)
unfolding new_throttler get contains
throttled xs =
    make_moves-IsThrottled new_throttler xs (record { distinct = tt; marked = λ r. refl })

-- An event is ignored as long as the goroutine for its object has an entry to delete, also when that
-- goroutine has pushed its request already: then nothing of the event reaches the queue.
pub generic-ignores :
    (xs : List Move) (r : NamespacedName)
    → contains (objects (make_moves new_throttler xs).goroutines) r ≡ true
    → generic (make_moves new_throttler xs) (some r) ≡ make_moves new_throttler xs
unfolding generic
generic-ignores xs r h = ground (arith, (throttled xs).marked r)

-- An event for an object that has no goroutine reaches the queue: when its goroutine has taken its two
-- steps, the queue has one request more, for that object, the other goroutines are as they were, and
-- the next event for the object is taken again.
pub generic-pushes :
    (xs : List Move) (r : NamespacedName)
    → contains (objects (make_moves new_throttler xs).goroutines) r ≡ false
    → let t = make_moves new_throttler xs in
      let t' = make_moves t (arrives (some r) ∷ goes_on 0 ∷ goes_on 0 ∷ []) in
      (t'.queue ≡ t.queue ++ (r ∷ [])) × (t'.goroutines ≡ t.goroutines) × (has t'.mapping r ≡ false)
unfolding generic advance take_effect make_move make_moves
generic-pushes xs r h =
    subst
      (λ u.
        let t = make_moves new_throttler xs in
        let t' = make_moves u (goes_on 0 ∷ goes_on 0 ∷ []) in
        (t'.queue ≡ t.queue ++ (r ∷ []))
        × (t'.goroutines ≡ t.goroutines)
        × (has t'.mapping r ≡ false))
      (sym (if_false _ _ ((throttled xs).marked r ∙ h)))
      (
        refl,
        refl,
        ground (arith, has-delete (put (make_moves new_throttler xs).mapping r tt) r r, ==_refl r),
      )
