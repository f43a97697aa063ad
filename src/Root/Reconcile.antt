-- ===== src/Root/Reconcile.antt =====
-- Reconcile of root_controller.go. A panic, which a nil map entry would raise, is `none`.
pub mod Watched
pub mod Serves
pub mod Disabled
pub mod Total
use kpt_resource_group.Base.{
  ◌≡◌, Bool, true, false, Option, none, some, List, [], ◌∷◌, ◌++◌, if◌then◌else◌, ◌>>=◌, is_some,
}
use kpt_resource_group.GoMap.{Map}
use kpt_resource_group.KeySet
use kpt_resource_group.KeySet.{KeySet}
use kpt_resource_group.Api.{
  NamespacedName, GroupKind, GroupVersionKind, ObjMetadata, ResourceGroup, ResourceGroupSpec,
  empty_status, to_obj_metadata, gvk_eq,
}
use kpt_resource_group.ResourceMap
use kpt_resource_group.ResourceMap.{ResourceMap, Reconciled}
use kpt_resource_group.Status.{Objects}
use kpt_resource_group.TypeResolver.{TypeMapping, resolve}
use kpt_resource_group.Watch.Manager.{Manager, Updated, GvkSet, update_watches}
use kpt_resource_group.Controller.Update.{
  Cluster, GroupAnswer, group_found, group_not_found, group_error, Attempt, done, write_status,
}
use kpt_resource_group.Root.Predicate.{is_status_disabled}

-- What the controller keeps.
pub record State (W : Type 0) : Type 0 where
  pub resource_map : ResourceMap
  pub watches : Manager W

-- The server and the state afterwards, the ResourceGroups that got an event, and whether an error
-- is returned.
pub record Handled (World W : Type 0) : Type 0 where
  pub world : World
  pub state : State W
  pub events : List NamespacedName
  pub failed : Bool

-- The loop of updateWatches: the types that the group kinds resolve to.
unfoldable pub wanted_types : TypeMapping → GvkSet → List GroupKind → GvkSet
wanted_types types wanted [] = wanted
wanted_types types wanted (k ∷ ks) =
    wanted_types types (elim (resolve types k) [ none ↦ wanted | some gvk ↦ KeySet.add wanted gvk ])
      ks

-- resources and subgroups of the spec
unfoldable pub spec_resources : ResourceGroupSpec → List ObjMetadata
spec_resources spec = spec.resources ++ to_obj_metadata spec.subgroups

-- the event that follows where `reconcile` made no error
unfoldable pub notify : {World W : Type 0} → ResourceGroup → Handled World W → Handled World W
notify g h = if h.failed then h else record h { events = g.meta_name ∷ [] }

module _ {World W : Type 0} (create : GroupVersionKind → Option W) (types : TypeMapping) where
  -- func (r *Reconciler) updateWatches, and the state around it
  unfoldable pub update_root_watches : World → Manager W → Reconciled → Handled World W
  update_root_watches w watches out =
      let u =
        update_watches create watches (wanted_types types (KeySet.new_set []) out.group_kinds) in
      record {
        world = w;
        state = record { resource_map = out.resource_map; watches = u.manager };
        events = [];
        failed = is_some u.err;
      }

  -- func (r *Reconciler) reconcile
  unfoldable pub reconcile :
      World → State W → NamespacedName → List ObjMetadata → Bool → Option (Handled World W)
  reconcile w s name resources delete_rg = do
    out ← ResourceMap.reconcile s.resource_map name resources delete_rg
    some (update_root_watches w s.watches out)

module _ {objects : Objects} (cluster : Cluster objects) {W : Type 0}
    (create : GroupVersionKind → Option W) (types : TypeMapping) where
  open cluster use {World, get_group, retry_on_conflict}

  -- after the status was cleared, or the attempt has failed
  unfoldable pub after_clear : State W → NamespacedName → Attempt World → Option (Handled World W)
  after_clear s name a = elim a.outcome [
    | done ↦ reconcile create types a.world s name [] true
    | _ ↦ some (record { world = a.world; state = s; events = []; failed = true })
  ]

  -- func (r *Reconciler) reconcileDisabledResourceGroup
  unfoldable pub reconcile_disabled :
      World → State W → NamespacedName → ResourceGroup → Option (Handled World W)
  reconcile_disabled w s name g =
      after_clear s name (retry_on_conflict (write_status cluster empty_status) w g)

  -- a group that was found
  unfoldable pub reconcile_found :
      World → State W → NamespacedName → ResourceGroup → Option (Handled World W)
  reconcile_found w s name g =
      if is_status_disabled g
      then reconcile_disabled w s name g
      else if g.deleting
      then reconcile create types w s name [] true
      else do h ← reconcile create types w s name (spec_resources g.spec) false; some (notify g h)

  -- func (r *Reconciler) reconcileKptGroup
  unfoldable pub reconcile_kpt_group : World → State W → NamespacedName → Option (Handled World W)
  reconcile_kpt_group w s name = elim (get_group w name) [
    | group_not_found ↦ reconcile create types w s name [] true
    | group_error ↦ some (record { world = w; state = s; events = []; failed = true })
    | group_found g ↦ reconcile_found w s name g
  ]
