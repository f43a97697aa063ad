-- ===== src/Controller/Update/Retry.antt =====
-- A write of a status under the retry helper, for each answer of the server.
use kpt_resource_group.Base.{
  ℕ, zero, suc, ◌≡◌, refl, sym, ◌∙◌, ap, ◌≢◌, Bool, true, false, not, ◌&&◌, if◌then◌else◌,
  Bool-cases, inl, inr, if_true, if_false,
}
use kpt_resource_group.Api.{ResourceGroup, ResourceGroupStatus}
use kpt_resource_group.Status.{Objects}
use kpt_resource_group.Controller.Update.{
  Cluster, UpdateAnswer, updated, conflict, update_failed, done, conflicted, failed_update, Attempt,
  attempts, write_status,
}
use kpt_resource_group.Controller.Update.Conflict.{attempts_last, attempts_again}

-- An attempt that ends with another error than a conflict is the last.
attempts_failed :
    {W : Type 0} (n : ℕ) (f : W → ResourceGroup → Attempt W) (w w' : W) (g g' : ResourceGroup)
    → f w g ≡ record { world = w'; group = g'; outcome = failed_update }
    → attempts n f w g ≡ record { world = w'; group = g'; outcome = failed_update }
unfolding attempts
attempts_failed zero f w w' g g' e = e
attempts_failed (suc n) f w w' g g' e = rw e

module _ {objects : Objects} (cluster : Cluster objects) (new : ResourceGroupStatus)
    (w : cluster.World) (g : ResourceGroup) where
  open cluster use {
    World, update_status, deep_equal, deep_equal_refl, retries, retry_on_conflict, retry_lem,
  }

  -- the object as it is sent
  abbrev pub sent : ResourceGroup
  sent = record g { status = new }

  -- what is left after the one write
  abbrev pub after_write : World × UpdateAnswer → Attempt World
  after_write (w', updated g') = record { world = w'; group = g'; outcome = done }
  after_write (w', conflict) = record { world = w'; group = sent; outcome = done }
  after_write (w', update_failed) = record { world = w'; group = sent; outcome = failed_update }

  abbrev write : World → ResourceGroup → Attempt World
  write = write_status cluster new

  -- nothing is written where the object holds the status
  write_equal : (w' : World) → write w' sent ≡ record { world = w'; group = sent; outcome = done }
  unfolding write_status
  write_equal w' = rw (deep_equal_refl new)

  second_attempt :
      (n : ℕ) (w' : World)
      → write w g ≡ record { world = w'; group = sent; outcome = conflicted }
      → n ≢ 0
      → attempts n write w g ≡ record { world = w'; group = sent; outcome = done }
  second_attempt zero w' e h = absurd (h refl)
  second_attempt (suc n) w' e h =
      attempts_again n write w w' g sent e ∙ attempts_last n write w' w' sent sent (write_equal w')

  written :
      (a : World × UpdateAnswer)
      → update_status w sent ≡ a
      → deep_equal g.status new ≡ false
      → retries ≢ 0
      → attempts retries write w g ≡ after_write a
  unfolding write_status
  written (w', updated g') e d n = attempts_last retries write w w' g g' (rw (d, write_status, e))
  written (w', conflict) e d n = second_attempt retries w' (rw (d, write_status, e)) n
  written (w', update_failed) e d n =
      attempts_failed retries write w w' g sent (rw (d, write_status, e))

  -- With at least one retry there is one write at most, and its answer decides the rest, where a conflict is
  -- reported as a success.
  pub retry-write_status :
      retries ≢ 0
      → retry_on_conflict write w g ≡ (
          if deep_equal g.status new
          then record { world = w; group = g; outcome = done }
          else after_write (update_status w sent))
  unfolding write_status
  retry-write_status n = elim (Bool-cases (deep_equal g.status new)) [
    | inl d ↦
        retry_lem write w g
        ∙ (attempts_last retries write w w g g (rw (d, write_status)) ∙ sym (if_true _ _ d))
    | inr d ↦ retry_lem write w g ∙ (written (update_status w sent) refl d n ∙ sym (if_false _ _ d))
  ]

  abbrev is_failure : UpdateAnswer → Bool
  is_failure update_failed = true
  is_failure other = false

  -- whether the status is to change and the server answers its write with an error that is no conflict
  abbrev pub is_refused : Bool
  is_refused = not (deep_equal g.status new) && is_failure (update_status w sent).1

  outcome_of :
      (b : Bool) (a : World × UpdateAnswer)
      → (if b then record { world = w; group = g; outcome = done } else after_write a).outcome
        ≡ (if not b && is_failure a.1 then failed_update else done)
  outcome_of true a = refl
  outcome_of false (w', updated g') = refl
  outcome_of false (w', conflict) = refl
  outcome_of false (w', update_failed) = refl

  pub outcome-retry :
      retries ≢ 0
      → (retry_on_conflict write w g).outcome ≡ (if is_refused then failed_update else done)
  outcome-retry n =
      ap (λ (a : Attempt World). a.outcome) (retry-write_status n)
      ∙ outcome_of (deep_equal g.status new) (update_status w sent)

  -- the server after all attempts
  abbrev pub world_after : World
  world_after = if deep_equal g.status new then w else (update_status w sent).0

  world_of :
      (b : Bool) (a : World × UpdateAnswer)
      → (if b then record { world = w; group = g; outcome = done } else after_write a).world
        ≡ (if b then w else a.0)
  world_of true a = refl
  world_of false (w', updated g') = refl
  world_of false (w', conflict) = refl
  world_of false (w', update_failed) = refl

  pub world-retry : retries ≢ 0 → (retry_on_conflict write w g).world ≡ world_after
  world-retry n =
      ap (λ (a : Attempt World). a.world) (retry-write_status n)
      ∙ world_of (deep_equal g.status new) (update_status w sent)
