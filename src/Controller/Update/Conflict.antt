-- ===== src/Controller/Update/Conflict.antt =====
-- What a conflict does to the update of a status: the object in memory holds the new status before
-- the write is tried, so the second attempt finds nothing to write.
use kpt_resource_group.Base.{ℕ, zero, suc, ◌≡◌, refl, ◌∙◌, ◌≢◌, false, some}
use kpt_resource_group.Api.{Time, ResourceGroup, ResourceGroupStatus}
use kpt_resource_group.Status.{Objects}
use kpt_resource_group.Controller.Conditions.{adjust_condition_order}
use kpt_resource_group.Controller.Update.{
  Cluster, updated, conflict, done, conflicted, Attempt, attempts, write_status,
  update_status_kpt_group, items,
}

-- The status that updateStatusKptGroup writes: the conditions in their order.
abbrev pub ordered : Time → ResourceGroupStatus → ResourceGroupStatus
ordered now new = record new {
  conditions = some (adjust_condition_order now (items new.conditions));
}

-- An attempt that ends without an error is the last.
pub attempts_last :
    {W : Type 0} (n : ℕ) (f : W → ResourceGroup → Attempt W) (w w' : W) (g g' : ResourceGroup)
    → f w g ≡ record { world = w'; group = g'; outcome = done }
    → attempts n f w g ≡ record { world = w'; group = g'; outcome = done }
unfolding attempts
attempts_last zero f w w' g g' e = e
attempts_last (suc n) f w w' g g' e = rw e

-- An attempt that ends in a conflict is made again, from the object that it left.
pub attempts_again :
    {W : Type 0} (n : ℕ) (f : W → ResourceGroup → Attempt W) (w w' : W) (g g' : ResourceGroup)
    → f w g ≡ record { world = w'; group = g'; outcome = conflicted }
    → attempts (suc n) f w g ≡ attempts n f w' g'
unfolding attempts
attempts_again n f w w' g g' e = rw e

module _ {objects : Objects} (cluster : Cluster objects) (now : Time) (new : ResourceGroupStatus)
    (w : cluster.World) (g : ResourceGroup) where
  open cluster use {
    World, update_status, deep_equal, deep_equal_refl, retries, retry_on_conflict, retry_lem,
  }

  abbrev written : ResourceGroup
  written = record g { status = ordered now new }

  abbrev result : Attempt World
  result = update_status_kpt_group cluster now new w g

  abbrev write : World → ResourceGroup → Attempt World
  write = write_status cluster (ordered now new)

  write_refused :
      (w' : World)
      → deep_equal g.status (ordered now new) ≡ false
      → update_status w written ≡ (w', conflict)
      → write w g ≡ record { world = w'; group = written; outcome = conflicted }
  unfolding write_status
  write_refused w' d e = rw (d, write_status, e)

  write_accepted :
      (w' : World) (g' : ResourceGroup)
      → deep_equal g.status (ordered now new) ≡ false
      → update_status w written ≡ (w', updated g')
      → write w g ≡ record { world = w'; group = g'; outcome = done }
  unfolding write_status
  write_accepted w' g' d e = rw (d, write_status, e)

  -- nothing is written where the object holds the status
  write_equal :
      (w' : World) → write w' written ≡ record { world = w'; group = written; outcome = done }
  unfolding write_status
  write_equal w' = rw (deep_equal_refl (ordered now new))

  lost :
      (n : ℕ) (w' : World)
      → write w g ≡ record { world = w'; group = written; outcome = conflicted }
      → n ≢ 0
      → attempts n write w g ≡ record { world = w'; group = written; outcome = done }
  lost zero w' e h = absurd (h refl)
  lost (suc n) w' e h =
      attempts_again n write w w' g written e
      ∙ attempts_last n write w' w' written written (write_equal w')

  -- Where the status is to change, the first write meets a conflict and there is a second attempt,
  -- updateStatusKptGroup reports success although the only write was refused: the server is as the
  -- refused write left it, and the object in memory holds the status that was not written.
  pub update_conflict_lost :
      (w' : World)
      → deep_equal g.status (ordered now new) ≡ false
      → update_status w written ≡ (w', conflict)
      → retries ≢ 0
      → result ≡ record { world = w'; group = written; outcome = done }
  unfolding update_status_kpt_group
  update_conflict_lost w' d e n = retry_lem write w g ∙ lost retries w' (write_refused w' d e) n

  -- Where the status is to change and the write is accepted, updateStatusKptGroup makes that one
  -- write, of the object with its conditions in order, and keeps the object that the server answers.
  pub update_status_kpt_group_lem :
      (w' : World) (g' : ResourceGroup)
      → deep_equal g.status (ordered now new) ≡ false
      → update_status w written ≡ (w', updated g')
      → result ≡ record { world = w'; group = g'; outcome = done }
  unfolding update_status_kpt_group
  update_status_kpt_group_lem w' g' d e =
      retry_lem write w g ∙ attempts_last retries write w w' g g' (write_accepted w' g' d e)
