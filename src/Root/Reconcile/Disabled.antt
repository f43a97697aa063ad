-- ===== src/Root/Reconcile/Disabled.antt =====
-- A ResourceGroup whose status is disabled, for each answer of the server.
use mathlib.Core.Path.{subst}
use kpt_resource_group.Base.{
  ◌≡◌, ◌≢◌, sym, ap, ◌∙◌, Bool, true, false, Option, none, some, [], if_true, if_false, Bool-cases,
  inl, inr,
}
use kpt_resource_group.Api.{NamespacedName, GroupVersionKind, ResourceGroup, empty_status}
use kpt_resource_group.ResourceMap.Links.{IsConsistent}
use kpt_resource_group.Status.{Objects}
use kpt_resource_group.TypeResolver.{TypeMapping}
use kpt_resource_group.Controller.Update.{
  Cluster, Attempt, group_found, done, failed_update, write_status,
}
use kpt_resource_group.Controller.Update.Retry.{is_refused, world_after, outcome-retry, world-retry}
use kpt_resource_group.Root.Predicate.{is_status_disabled}
use kpt_resource_group.Root.Reconcile.{
  State, Handled, reconcile, reconcile_kpt_group, reconcile_found, reconcile_disabled, after_clear,
}
use kpt_resource_group.Root.Reconcile.Watched.{
  IsWatchedFor, reconcile-IsWatchedFor, reconcile-world,
}

module _ {objects : Objects} (cluster : Cluster objects) {W : Type 0}
    (create : GroupVersionKind → Option W) (types : TypeMapping) (w : cluster.World) (s : State W)
    (name : NamespacedName) (g : ResourceGroup) where
  open cluster use {World, get_group, retries, retry_on_conflict}

  -- what is left when the write fails, and when it does not
  abbrev pub Clears : Bool → Handled World W → Type 0
  Clears true h = h ≡ record {
    world = world_after cluster empty_status w g;
    state = s;
    events = [];
    failed = true;
  }
  Clears false h =
      (h.world ≡ world_after cluster empty_status w g) × IsWatchedFor types name none s h

  abbrev cleared : Attempt World
  cleared = retry_on_conflict (write_status cluster empty_status) w g

  after_clear-failed :
      (a : Attempt World)
      → a.outcome ≡ failed_update
      → after_clear cluster create types s name a
        ≡ some (record { world = a.world; state = s; events = []; failed = true })
  unfolding after_clear
  after_clear-failed a e = rw (e, after_clear)

  after_clear-done :
      (a : Attempt World)
      → a.outcome ≡ done
      → after_clear cluster create types s name a ≡ reconcile create types a.world s name [] true
  unfolding after_clear
  after_clear-done a e = rw (e, after_clear)

  -- A group whose status is disabled, in a consistent state and with at least one retry, has its status
  -- cleared by one write at most, which a status that is empty does not need. If the server answers it
  -- with an error that is no conflict, an error is returned and nothing else happens; otherwise, also after
  -- a conflict, the group has no entry in the map any more and the watches follow.
  pub reconcile_kpt_group-disabled :
      retries ≢ 0
      → IsConsistent s.resource_map
      → get_group w name ≡ group_found g
      → is_status_disabled g ≡ true
      → (h : Handled World W) × (reconcile_kpt_group cluster create types w s name ≡ some h)
        × Clears (is_refused cluster empty_status w g) h
  unfolding reconcile_kpt_group reconcile_found reconcile_disabled
  reconcile_kpt_group-disabled n v e d = elim (Bool-cases (is_refused cluster empty_status w g)) [
    | inl r ↦ (
      record { world = cleared.world; state = s; events = []; failed = true },
      to_clear
          ∙ after_clear-failed cleared (outcome-retry cluster empty_status w g n ∙ if_true _ _ r),
      subst
          (λ b. Clears b (record { world = cleared.world; state = s; events = []; failed = true }))
          (sym r)
          (ap (λ u. record { world = u; state = s; events = []; failed = true })
            (world-retry cluster empty_status w g n)),
    )
    | inr r ↦
        let (h, q, i) = reconcile-IsWatchedFor create types cleared.world s name [] true v in
        (
          h,
          to_clear
              ∙ (after_clear-done cleared
                    (outcome-retry cluster empty_status w g n ∙ if_false _ _ r)
                  ∙ q),
          subst (λ b. Clears b h) (sym r)
              (
                reconcile-world create types cleared.world s name [] true h q
                    ∙ world-retry cluster empty_status w g n,
                i,
              ),
        )
  ]
    where
      to_clear :
          reconcile_kpt_group cluster create types w s name
          ≡ after_clear cluster create types s name cleared
      to_clear = rw (e, reconcile_kpt_group) (if_true _ _ d)
