-- ===== src/Controller/Conditions/Order.antt =====
-- The order that `adjustConditionOrder` gives, against a description that has no loop variables.
use mathlib.Core.List.{Perm, append_assoc, append-nil}
use text.Mathlib.TextEquality.{eq_iff}
use kpt_resource_group.Base.{
  ◌≡◌, refl, ◌∙◌, ◌⊎◌, inl, inr, true, false, Option, none, some, List, [], ◌∷◌, ◌++◌, String,
  arith, if◌then◌else◌, ◌==◌, string_eq, ◌||◌, nat_eq,
}
use kpt_resource_group.Api.{
  Time, Condition, ConditionType, no_condition, is_empty, reconciling, stalled, unknown_status,
}
use kpt_resource_group.Controller.Conditions.{
  new_reconciling_condition, new_stalled_condition, Picked, pick, pick_all, sort_by_type,
  adjust_condition_order, IsSorted, sort_by_type-IsSorted, sort_by_type-perm,
}

-- The last condition of a type.
abbrev pub latest : ConditionType → List Condition → Option Condition
latest t [] = none
latest t (c ∷ cs) = elim (latest t cs) [
  | none ↦ if c.type == t then some c else none
  | some d ↦ some d
]

abbrev pub or_else : Option Condition → Condition → Condition
or_else none d = d
or_else (some c) d = c

-- The conditions of any other type, in their order.
abbrev pub others_of : List Condition → List Condition
others_of [] = []
others_of (c ∷ cs) =
    let rest = others_of cs in if c.type == reconciling || c.type == stalled then rest else c ∷ rest

not_stalled : (t : String) → (t == reconciling) ≡ true → (t == stalled) ≡ false
not_stalled t h = rw ((eq_iff t reconciling).0 h)

latest-type :
    (t : ConditionType) (cs : List Condition) (c : Condition) → latest t cs ≡ some c → c.type ≡ t
latest-type t [] c h = cc
latest-type t (d ∷ cs) c h = ground (arith, latest-type t cs c, eq_iff d.type t)

-- What the loop leaves in its three variables.
abbrev picked_from : Picked → List Condition → Picked
picked_from p cs = record {
  reconciling_cond = or_else (latest reconciling cs) p.reconciling_cond;
  stalled_cond = or_else (latest stalled cs) p.stalled_cond;
  others = p.others ++ others_of cs;
}

pick_all-picked_from : (cs : List Condition) (p : Picked) → pick_all p cs ≡ picked_from p cs
unfolding pick_all pick
pick_all-picked_from [] p = ground (arith, append-nil p.others)
pick_all-picked_from (c ∷ cs) p =
    pick_all-picked_from cs (pick p c)
    ∙ ground (arith, not_stalled c.type, append_assoc p.others (c ∷ []) (others_of cs))

is_empty_of_type :
    (c : Condition) → (c.type ≡ reconciling) ⊎ (c.type ≡ stalled) → is_empty c ≡ false
unfolding is_empty
is_empty_of_type c (inl e) = rw e
is_empty_of_type c (inr e) = rw e

or_default :
    (t : ConditionType) (cs : List Condition) (d : Condition)
    → (t ≡ reconciling) ⊎ (t ≡ stalled)
    → (if is_empty (or_else (latest t cs) no_condition)
        then d
        else or_else (latest t cs) no_condition)
      ≡ or_else (latest t cs) d
or_default t cs d h = found (latest t cs) refl
  where
    typed : (c : Condition) → c.type ≡ t → (c.type ≡ reconciling) ⊎ (c.type ≡ stalled)
    typed c e = ground (arith, h)

    found :
        (o : Option Condition)
        → latest t cs ≡ o
        → (if is_empty (or_else o no_condition) then d else or_else o no_condition) ≡ or_else o d
    found none e = unfold is_empty in refl
    found (some c) e = rw (is_empty_of_type c (typed c (latest-type t cs c e)))

abbrev start : Picked
start = record { reconciling_cond = no_condition; stalled_cond = no_condition; others = [] }

-- adjustConditionOrder gives the last Reconciling condition or a new one of status Unknown, then
-- likewise the Stalled one, and then a permutation of all the other conditions in which the types
-- do not fall.
pub adjust_condition_order_lem :
    (now : Time) (cs : List Condition)
    → (adjust_condition_order now cs
        ≡ or_else (latest reconciling cs) (new_reconciling_condition now unknown_status "" "")
          ∷ or_else (latest stalled cs) (new_stalled_condition now unknown_status "" "")
          ∷ sort_by_type (others_of cs))
      × IsSorted (sort_by_type (others_of cs))
      × Perm (sort_by_type (others_of cs)) (others_of cs)
unfolding adjust_condition_order
adjust_condition_order_lem now cs = (
  rw (
    pick_all-picked_from cs start,
    or_default reconciling cs (new_reconciling_condition now unknown_status "" "") (inl refl),
    or_default stalled cs (new_stalled_condition now unknown_status "" "") (inr refl),
  ),
  sort_by_type-IsSorted (others_of cs),
  sort_by_type-perm (others_of cs),
)
