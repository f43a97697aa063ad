-- ===== src/Controller/Conditions.antt =====
-- controllers/resourcegroup/condition.go: the conditions of a ResourceGroup and their order.
-- `sort.Slice` orders equal types in no fixed way; the insertion sort here is one such order. The
-- clock is read once for a call.
pub mod Order
use mathlib.Core.List.{Perm}
use mathlib.Core.List.Perm
use kpt_resource_group.Base.{
  ◌≡◌, refl, ◌⊎◌, inl, inr, Bool, true, false, List, [], ◌∷◌, ◌++◌, String, arith, if◌then◌else◌,
  Bool-cases, ◌==◌, string_eq, nat_eq, ◌&&◌,
}
use kpt_resource_group.Text.Order.{str_lt, str_lt_asymm}
use kpt_resource_group.Api.{
  Time, Condition, ConditionStatus, no_condition, is_empty, reconciling, stalled, unknown_status,
}

unfoldable pub new_reconciling_condition : Time → ConditionStatus → String → String → Condition
new_reconciling_condition now status reason message = record {
  type = reconciling;
  status = status;
  reason = reason;
  message = message;
  last_transition_time = now;
}

unfoldable pub new_stalled_condition : Time → ConditionStatus → String → String → Condition
new_stalled_condition now status reason message = record {
  type = stalled;
  status = status;
  reason = reason;
  message = message;
  last_transition_time = now;
}

-- The variables of the loop.
pub record Picked : Type 0 where
  pub reconciling_cond : Condition
  pub stalled_cond : Condition
  pub others : List Condition

-- The `switch` of the loop.
unfoldable pub pick : Picked → Condition → Picked
pick p c =
    if c.type == reconciling
    then record p { reconciling_cond = c }
    else if c.type == stalled
    then record p { stalled_cond = c }
    else record p { others = p.others ++ c ∷ [] }

unfoldable pub pick_all : Picked → List Condition → Picked
pick_all p [] = p
pick_all p (c ∷ cs) = pick_all (pick p c) cs

unfoldable pub insert_by_type : Condition → List Condition → List Condition
insert_by_type c [] = c ∷ []
insert_by_type c (d ∷ ds) = if str_lt d.type c.type then d ∷ insert_by_type c ds else c ∷ d ∷ ds

unfoldable pub sort_by_type : List Condition → List Condition
sort_by_type [] = []
sort_by_type (c ∷ cs) = insert_by_type c (sort_by_type cs)

unfoldable pub adjust_condition_order : Time → List Condition → List Condition
adjust_condition_order now conditions =
    let p =
      pick_all
        (record { reconciling_cond = no_condition; stalled_cond = no_condition; others = [] })
        conditions in
    (if is_empty p.reconciling_cond
      then new_reconciling_condition now unknown_status "" ""
      else p.reconciling_cond)
    ∷ (if is_empty p.stalled_cond
        then new_stalled_condition now unknown_status "" ""
        else p.stalled_cond)
    ∷ sort_by_type p.others

-- No condition has a smaller type than the one before it.
abbrev pub IsSorted : List Condition → Type 0
IsSorted [] = Unit {0}
IsSorted (c ∷ []) = Unit {0}
IsSorted (c ∷ d ∷ cs) = (str_lt d.type c.type ≡ false) × IsSorted (d ∷ cs)

insert_by_type-IsSorted :
    (c : Condition) (ds : List Condition) → IsSorted ds → IsSorted (insert_by_type c ds)
unfolding insert_by_type
insert_by_type-IsSorted c [] s = tt
insert_by_type-IsSorted c (d ∷ []) s = ground (arith, str_lt_asymm d.type c.type)
insert_by_type-IsSorted c (d ∷ e ∷ ds) s =
    ground (arith, str_lt_asymm d.type c.type, insert_by_type-IsSorted c (e ∷ ds) s.1)

pub sort_by_type-IsSorted : (cs : List Condition) → IsSorted (sort_by_type cs)
unfolding sort_by_type
sort_by_type-IsSorted [] = tt
sort_by_type-IsSorted (c ∷ cs) =
    insert_by_type-IsSorted c (sort_by_type cs) (sort_by_type-IsSorted cs)

insert_by_type-perm : (c : Condition) (ds : List Condition) → Perm (insert_by_type c ds) (c ∷ ds)
unfolding insert_by_type
insert_by_type-perm c [] = Perm.refl (c ∷ [])
insert_by_type-perm c (d ∷ ds) = elim (Bool-cases (str_lt d.type c.type)) [
  | inl h ↦ rw h (Perm.trans (Perm.cons d (insert_by_type-perm c ds)) (Perm.swap c d ds))
  | inr h ↦ rw h (Perm.refl (c ∷ d ∷ ds))
]

pub sort_by_type-perm : (cs : List Condition) → Perm (sort_by_type cs) cs
unfolding sort_by_type
sort_by_type-perm [] = Perm.refl []
sort_by_type-perm (c ∷ cs) =
    Perm.trans (insert_by_type-perm c (sort_by_type cs)) (Perm.cons c (sort_by_type-perm cs))
