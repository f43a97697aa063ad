-- ===== src/Controller/Finish/Races.antt =====
-- newStatus of endReconcilingStatus, assignment by assignment, under the race between the goroutine and
-- the timeout branch. A field is assigned at once, and the field is read when both have gone as far as
-- they get before the measurements.
use kpt_resource_group.Base.{ℕ, ◌≡◌, refl, ◌∙◌, ◌↔◌, Option, some, List, [], ◌∷◌, ◌++◌}
use kpt_resource_group.Api.{
  Time, Condition, ResourceGroupStatus, ResourceStatus, GroupStatus, empty_status, true_status,
  false_status,
}
use kpt_resource_group.Controller.Conditions.{new_reconciling_condition, new_stalled_condition}
use kpt_resource_group.Controller.Resources.{
  aggregate_resource_statuses, finish_reconciling, finish_reconciling_msg,
}
use kpt_resource_group.Controller.Finish.{
  Work, Race, raced_status, finished_status, timed_out_status, in_time, timed_out, late_resources,
  late_subgroups, late_both, exceed_timeout, exceed_timeout_msg,
}

-- An assignment to a field of newStatus.
pub data Write : Type 0 where
  sets_generation : ℕ → Write
  sets_resources : List ResourceStatus → Write
  sets_subgroups : List GroupStatus → Write
  sets_conditions : Option (List Condition) → Write

abbrev pub write : ResourceGroupStatus → Write → ResourceGroupStatus
write s (sets_generation n) = record s { observed_generation = n }
write s (sets_resources rs) = record s { resource_statuses = rs }
write s (sets_subgroups gs) = record s { subgroup_statuses = gs }
write s (sets_conditions cs) = record s { conditions = cs }

abbrev pub write_all : ResourceGroupStatus → List Write → ResourceGroupStatus
write_all s [] = s
write_all s (w ∷ ws) = write_all (write s w) ws

-- All writes of the branch, in their order, and among and after them the first ones of the goroutine.
pub data Interleaves : List Write → List Write → List Write → Type 0 where
  ends : (ys : List Write) → Interleaves [] ys []
  branch_writes :
      (x : Write) (xs ys zs : List Write) → Interleaves xs ys zs → Interleaves (x ∷ xs) ys (x ∷ zs)
  goroutine_writes :
      (y : Write) (xs ys zs : List Write) → Interleaves xs ys zs → Interleaves xs (y ∷ ys) (y ∷ zs)

-- A predicate holds of every interleaving, each by itself.
abbrev Every : (List Write → Type 0) → List Write → List Write → Type 0
Every P [] [] = P []
Every P [] (y ∷ ys) = P [] × Every (λ zs. P (y ∷ zs)) [] ys
Every P (x ∷ xs) [] = Every (λ zs. P (x ∷ zs)) xs []
Every P (x ∷ xs) (y ∷ ys) =
    Every (λ zs. P (x ∷ zs)) xs (y ∷ ys) × Every (λ zs. P (y ∷ zs)) (x ∷ xs) ys

interleaves_lem :
    (P : List Write → Type 0) (xs ys zs : List Write) → Every P xs ys → Interleaves xs ys zs → P zs
interleaves_lem P xs ys zs h (ends []) = h
interleaves_lem P xs ys zs h (ends (y ∷ ys')) = h.0
interleaves_lem P xs ys zs h (branch_writes x xs' [] zs' i) =
    interleaves_lem (λ t. P (x ∷ t)) xs' [] zs' h i
interleaves_lem P xs ys zs h (branch_writes x xs' (y ∷ ys') zs' i) =
    interleaves_lem (λ t. P (x ∷ t)) xs' (y ∷ ys') zs' h.0 i
interleaves_lem P xs ys zs h (goroutine_writes y [] ys' zs' i) =
    interleaves_lem (λ t. P (y ∷ t)) [] ys' zs' h.1 i
interleaves_lem P xs ys zs h (goroutine_writes y (x ∷ xs') ys' zs' i) =
    interleaves_lem (λ t. P (y ∷ t)) (x ∷ xs') ys' zs' h.1 i

module _ (now : Time) (generation : ℕ) (status : ResourceGroupStatus) (work : Work) where
  -- The goroutine, the case `<-finish`, and the case of the timeout.
  abbrev pub of_goroutine : List Write
  of_goroutine = sets_resources work.resources ∷ sets_subgroups work.subgroups ∷ []

  abbrev pub of_finish : List Write
  of_finish =
      sets_generation generation
      ∷ sets_conditions (
          some (
            new_reconciling_condition now false_status finish_reconciling finish_reconciling_msg
            ∷ aggregate_resource_statuses now work.resources
            ∷ []))
      ∷ []

  abbrev pub of_timeout : List Write
  of_timeout =
      sets_generation status.observed_generation
      ∷ sets_resources status.resource_statuses
      ∷ sets_subgroups status.subgroup_statuses
      ∷ sets_conditions (
          some (
            new_reconciling_condition now false_status exceed_timeout exceed_timeout_msg
            ∷ new_stalled_condition now true_status exceed_timeout exceed_timeout_msg
            ∷ []))
      ∷ []

  -- The orders of the writes that the program can take.
  pub data IsRun : List Write → Type 0 where
    finishes : IsRun (of_goroutine ++ of_finish)
    times_out : (zs : List Write) → Interleaves of_timeout of_goroutine zs → IsRun zs

  abbrev raced : Race → ResourceGroupStatus
  raced = raced_status now generation status work

  abbrev IsRaced : List Write → Type 0
  IsRaced zs = (race : Race) × (raced race ≡ write_all empty_status zs)

  Every-IsRaced : Every IsRaced of_timeout of_goroutine
  unfolding raced_status timed_out_status
  Every-IsRaced = (
    (
      (
        (
          ((timed_out, refl), ((late_resources, refl), (late_both, refl))),
          (((late_resources, refl), (late_both, refl)), (late_both, refl)),
        ),
        ((((late_resources, refl), (late_both, refl)), (late_both, refl)), (late_resources, refl)),
      ),
      (
        ((((timed_out, refl), (late_subgroups, refl)), (late_subgroups, refl)), (timed_out, refl)),
        (timed_out, refl),
      ),
    ),
    (
      (
        ((((timed_out, refl), (late_subgroups, refl)), (late_subgroups, refl)), (timed_out, refl)),
        (timed_out, refl),
      ),
      (timed_out, refl),
    ),
  )

  run-IsRaced : (zs : List Write) → IsRun zs → IsRaced zs
  unfolding raced_status finished_status
  run-IsRaced zs finishes = (in_time, refl)
  run-IsRaced zs (times_out zs' i) =
      interleaves_lem IsRaced of_timeout of_goroutine zs' Every-IsRaced i

  -- The branch writes all that it has, and then the goroutine goes on.
  after_branch :
      (ys zs : List Write) → Interleaves [] ys zs → Interleaves of_timeout ys (of_timeout ++ zs)
  after_branch ys zs i =
      branch_writes _ _ _ _
        (branch_writes _ _ _ _ (branch_writes _ _ _ _ (branch_writes _ _ _ _ i)))

  IsRun-of : (race : Race) → (zs : List Write) × IsRun zs × (write_all empty_status zs ≡ raced race)
  unfolding raced_status finished_status timed_out_status
  IsRun-of in_time = (of_goroutine ++ of_finish, finishes, refl)
  IsRun-of timed_out = (_, times_out _ (after_branch of_goroutine [] (ends of_goroutine)), refl)
  IsRun-of late_resources = (
    _,
    times_out _ (
        after_branch of_goroutine (sets_resources work.resources ∷ [])
          (goroutine_writes _ _ _ _ (ends (sets_subgroups work.subgroups ∷ [])))),
    refl,
  )
  IsRun-of late_subgroups = (
    _,
    times_out _ (
        goroutine_writes (sets_resources work.resources) _ _ _ (
          after_branch (sets_subgroups work.subgroups ∷ []) (sets_subgroups work.subgroups ∷ [])
            (goroutine_writes _ _ _ _ (ends [])))),
    refl,
  )
  IsRun-of late_both = (
    _,
    times_out _ (
        after_branch of_goroutine of_goroutine
          (goroutine_writes _ _ _ _ (goroutine_writes _ _ _ _ (ends [])))),
    refl,
  )

  -- The statuses that newStatus can have after the case that runs, over all orders of the assignments of
  -- the goroutine and of the timeout branch, are just those of the races.
  pub raced_status_lem :
      (new : ResourceGroupStatus)
      → ((zs : List Write) × IsRun zs × (write_all empty_status zs ≡ new))
        ↔ ((race : Race) × (raced_status now generation status work race ≡ new))
  raced_status_lem new = (
    λ (zs, r, e). (let (race, q) = run-IsRaced zs r in (race, q ∙ e)),
    λ (race, e). (let (zs, r, q) = IsRun-of race in (zs, r, q ∙ e)),
  )
