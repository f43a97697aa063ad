-- ===== src/Handler/Throttler.antt =====
-- controllers/handler/throttler.go: at most one waiting request for each ResourceGroup. A call of
-- Generic is one step, since the channel's source calls it from one goroutine; each goroutine that
-- Generic starts takes two steps, and the steps of all of them interleave in any order. The length of
-- the sleep is left open: a sleep may end at any step.
pub mod Invariant
pub mod Drain
pub mod Delivery
use kpt_resource_group.Base.{
  ℕ, zero, suc, Option, none, some, List, [], ◌∷◌, ◌++◌, map, if◌then◌else◌,
}
use kpt_resource_group.GoMap.{Map, has, put, delete}
use kpt_resource_group.Api.{NamespacedName, named_eq}

-- A goroutine sleeps before q.Add; when it has pushed, it has its entry of the mapping to delete.
pub data Phase : Type 0 where
  sleeping pushed : Phase

abbrev pub Goroutine : Type 0
Goroutine = NamespacedName × Phase

-- The throttler's mapping, its goroutines, and the requests that were pushed to the queue.
pub record Throttler : Type 0 where
  pub mapping : Map NamespacedName (Unit {0})
  pub goroutines : List Goroutine
  pub queue : List NamespacedName

-- func NewThrottler
unfoldable pub new_throttler : Throttler
new_throttler = record { mapping = []; goroutines = []; queue = [] }

-- func (e *Throttler) Generic; `none` is a nil object.
unfoldable pub generic : Throttler → Option NamespacedName → Throttler
generic t none = t
generic t (some r) =
    if has t.mapping r
    then t
    else record t { mapping = put t.mapping r tt; goroutines = (r, sleeping) ∷ t.goroutines }

-- func (e *Throttler) Create, Update and Delete
unfoldable pub on_create : Throttler → Throttler
on_create t = t

unfoldable pub on_update : Throttler → Throttler
on_update t = t

unfoldable pub on_delete : Throttler → Throttler
on_delete t = t

-- What a goroutine does to what it shares with the others.
pub data Effect : Type 0 where
  nothing : Effect
  pushes unmarks : NamespacedName → Effect

-- The goroutine at a place of the list takes its next step.
unfoldable pub advance : ℕ → List Goroutine → Effect × List Goroutine
advance n [] = (nothing, [])
advance zero ((r, sleeping) ∷ gs) = (pushes r, (r, pushed) ∷ gs)
advance zero ((r, pushed) ∷ gs) = (unmarks r, gs)
advance (suc n) (g ∷ gs) = let (e, rest) = advance n gs in (e, g ∷ rest)

unfoldable pub take_effect : Throttler → Effect × List Goroutine → Throttler
take_effect t (nothing, gs) = record t { goroutines = gs }
take_effect t (pushes r, gs) = record t { goroutines = gs; queue = t.queue ++ (r ∷ []) }
take_effect t (unmarks r, gs) = record t { goroutines = gs; mapping = delete t.mapping r }

-- A step of the whole: a generic event or another one arrives, or a goroutine goes on.
pub data Move : Type 0 where
  creates updates deletes : Move
  arrives : Option NamespacedName → Move
  goes_on : ℕ → Move

unfoldable pub make_move : Throttler → Move → Throttler
make_move t creates = on_create t
make_move t updates = on_update t
make_move t deletes = on_delete t
make_move t (arrives evt) = generic t evt
make_move t (goes_on n) = take_effect t (advance n t.goroutines)

unfoldable pub make_moves : Throttler → List Move → Throttler
make_moves t [] = t
make_moves t (x ∷ xs) = make_moves (make_move t x) xs
