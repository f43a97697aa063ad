-- ===== src/Controller/Reconcile/Errors.antt =====
-- The errors of one reconciliation, by what the API server answers.
use kpt_resource_group.Base.{
  ◌≡◌, ◌≢◌, sym, ◌∙◌, ap, Bool, true, false, ◌||◌, [], String, if◌then◌else◌, if_true, if_false,
  Bool-cases, inl, inr,
}
use kpt_resource_group.GoMap.{Map}
use kpt_resource_group.Api.{
  NamespacedName, GroupKind, GroupVersionKind, Time, ResourceGroup, ResourceGroupStatus,
}
use kpt_resource_group.ResourceMap.{ResourceMap}
use kpt_resource_group.Status.{Objects}
use kpt_resource_group.Controller.Update.{
  Cluster, Attempt, group_found, done, failed_update, update_status_kpt_group,
}
use kpt_resource_group.Controller.Update.Answers.{
  update_status_kpt_group-outcome, update_status_kpt_group-world,
}
use kpt_resource_group.Controller.Update.Retry.{is_refused, sent}
use kpt_resource_group.Controller.Update.Conflict.{ordered}
use kpt_resource_group.Controller.Finish.{Race, start_reconciling_status}
use kpt_resource_group.Controller.Reconcile.{
  Run, reconcile_kpt, after_first, second_update, ending, reconciled_ok, requeued,
}

module _ {objects : Objects} (cluster : Cluster objects) (types : Map GroupKind GroupVersionKind)
    (label : String) (now : Time) (nn : NamespacedName) (m : ResourceMap) (race : Race)
    (w : cluster.World) (rg : ResourceGroup) where
  open cluster use {World, get_group, update_status, retries}

  abbrev run : Run World
  run = reconcile_kpt cluster types label now nn m race w

  -- the first update, and the status of the second
  abbrev pub first : Attempt World
  first = update_status_kpt_group cluster now (start_reconciling_status now rg.status) w rg

  abbrev pub second_status : ResourceGroupStatus
  second_status = (ending cluster types label now nn m race first).status

  run-first :
      get_group w nn ≡ group_found rg
      → rg.deleting ≡ false
      → run ≡ after_first cluster types label now nn m race first
  unfolding reconcile_kpt
  run-first found alive = rw (found, reconcile_kpt) (if_false _ _ alive)

  after_first-failed :
      (a : Attempt World)
      → a.outcome ≡ failed_update
      → after_first cluster types label now nn m race a
        ≡ record { world = a.world; resource_map = m; metrics = []; reply = requeued }
  unfolding after_first
  after_first-failed a e = rw (e, after_first)

  after_first-done :
      (a : Attempt World)
      → a.outcome ≡ done
      → after_first cluster types label now nn m race a
        ≡ second_update cluster types label now nn m race a
  unfolding after_first second_update update_status_kpt_group ending
  after_first-done a e = rw (e, after_first)

  second-reply :
      (a : Attempt World) (b : Bool)
      → (update_status_kpt_group cluster now
          (ending cluster types label now nn m race a).status
          a.world
          a.group).outcome
        ≡ (if b then failed_update else done)
      → (second_update cluster types label now nn m race a).reply
        ≡ (if b then requeued else reconciled_ok)
  unfolding second_update
  second-reply a true e = rw (e, second_update)
  second-reply a false e = rw (e, second_update)

  -- Where the retry helper has a second attempt, a reconciliation of a group that is there and lives is
  -- put back in the queue just when the server
  -- answers one of its two writes with an error that is no conflict. If it is the first, that write is
  -- all that the reconciliation does, and otherwise it goes on to the second update.
  pub reconcile_kpt-requeued :
      retries ≢ 0
      → get_group w nn ≡ group_found rg
      → rg.deleting ≡ false
      → (run.reply ≡ (
          if is_refused cluster (ordered now (start_reconciling_status now rg.status)) w rg
            || is_refused cluster (ordered now second_status) first.world first.group
          then requeued
          else reconciled_ok))
        × (run ≡ (
            if is_refused cluster (ordered now (start_reconciling_status now rg.status)) w rg
            then record {
              world =
                  (update_status w
                    (sent cluster (ordered now (start_reconciling_status now rg.status)) w rg)).0;
              resource_map = m;
              metrics = [];
              reply = requeued;
            }
            else second_update cluster types label now nn m race first))
  reconcile_kpt-requeued n found alive = (
    ap (λ (r : Run World). r.reply) (run-first found alive) ∙ replies,
    run-first found alive ∙ branches,
  )
    where
      is_first : Bool
      is_first = is_refused cluster (ordered now (start_reconciling_status now rg.status)) w rg

      is_second : Bool
      is_second = is_refused cluster (ordered now second_status) first.world first.group

      outcome : first.outcome ≡ (if is_first then failed_update else done)
      outcome =
          update_status_kpt_group-outcome cluster now (start_reconciling_status now rg.status) w rg
            n

      stops :
          is_first ≡ true
          → after_first cluster types label now nn m race first
            ≡ record { world = first.world; resource_map = m; metrics = []; reply = requeued }
      stops h = after_first-failed first (outcome ∙ if_true _ _ h)

      replies :
          (after_first cluster types label now nn m race first).reply
          ≡ (if is_first || is_second then requeued else reconciled_ok)
      replies = elim (Bool-cases is_first) [
        | inl h ↦ rw h (ap (λ (r : Run World). r.reply) (stops h))
        | inr h ↦ rw h (
            ap (λ (r : Run World). r.reply) (after_first-done first (outcome ∙ if_false _ _ h))
            ∙ second-reply first is_second (
                update_status_kpt_group-outcome cluster now second_status first.world first.group
                  n))
      ]

      branches : after_first cluster types label now nn m race first ≡ (
          if is_first
          then record {
            world =
                (update_status w
                  (sent cluster (ordered now (start_reconciling_status now rg.status)) w rg)).0;
            resource_map = m;
            metrics = [];
            reply = requeued;
          }
          else second_update cluster types label now nn m race first)
      branches = elim (Bool-cases is_first) [
        | inl h ↦
            stops h
            ∙ (ap (λ u. record { world = u; resource_map = m; metrics = []; reply = requeued })
                  (update_status_kpt_group-world cluster now
                    (start_reconciling_status now rg.status) w rg n h)
                ∙ sym (if_true _ _ h))
        | inr h ↦ after_first-done first (outcome ∙ if_false _ _ h) ∙ sym (if_false _ _ h)
      ]
