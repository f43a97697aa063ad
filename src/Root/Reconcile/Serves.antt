-- ===== src/Root/Reconcile/Serves.antt =====
-- What a request to the root controller does for a group whose status is enabled: the resource map, the
-- watches, the event that it sends, and when it fails.
use kpt_resource_group.Base.{
  ◌≡◌, refl, sym, ◌∙◌, ap, ◌↔◌, Bool, true, false, not, ◌||◌, Option, some, none, List, [], ◌∷◌,
  ◌++◌, map, arith, if◌then◌else◌, if_true, if_false, >>=-eq-some, eq_of_some-eq, is_some,
  Bool-cases, inl, inr,
}
use mathlib.Core.Path.{subst}
use kpt_resource_group.KeySet
use kpt_resource_group.Api.{
  NamespacedName, GroupVersionKind, ObjMetadata, ResourceGroup, ResourceGroupSpec, gk, gvk_eq,
  named_eq,
}
use kpt_resource_group.Api.Subgroups.{subgroup_object, to_obj_metadata_lem}
use kpt_resource_group.ResourceMap.{Reconciled, has_resource}
use kpt_resource_group.ResourceMap
use kpt_resource_group.ResourceMap.Links.{IsConsistent}
use kpt_resource_group.ResourceMap.Kinds.{ListsKinds, reconcile-ListsKinds}
use kpt_resource_group.Status.{Objects}
use kpt_resource_group.TypeResolver.{TypeMapping, resolve}
use kpt_resource_group.Watch.Manager.{update_watches, is_watched}
use kpt_resource_group.Watch.Manager.Targets.{get-update_watches, update_watches-err_iff}
use kpt_resource_group.Controller.Update.{
  Cluster, GroupAnswer, group_found, group_not_found, group_error,
}
use kpt_resource_group.Root.Predicate.{is_status_disabled}
use kpt_resource_group.Root.Reconcile.{
  State, Handled, wanted_types, update_root_watches, reconcile, notify, spec_resources,
  reconcile_found, reconcile_kpt_group,
}
use kpt_resource_group.Root.Reconcile.Watched.{
  keeps, IsWatchedFor, reconcile-IsWatchedFor, reconcile-world, wanted_iff, none_of_not,
}

module _ {World W : Type 0} (create : GroupVersionKind → Option W) (types : TypeMapping) where
  -- Every type that the kind of a tracked resource resolves to was watched, or a watcher can be created.
  abbrev pub CanWatch : State W → Handled World W → Type 0
  CanWatch s h =
      (r : ObjMetadata) (gvk : GroupVersionKind)
      → has_resource h.state.resource_map r ≡ true
      → resolve types (gk r) ≡ some gvk
      → (is_watched s.watches gvk || is_some (create gvk)) ≡ true

  failed_of_kinds :
      (w : World) (s : State W) (out : Reconciled)
      → ListsKinds out
      → ((update_root_watches create types w s.watches out).failed ≡ false)
        ↔ CanWatch s (update_root_watches create types w s.watches out)
  unfolding update_root_watches is_watched
  failed_of_kinds w s out l =
      let wanted = wanted_types types (KeySet.new_set []) out.group_kinds in
      let covered = update_watches-err_iff create s.watches wanted in
      (
        λ f r gvk t e. ground (
          arith,
          covered.0 (none_of_not (update_watches create s.watches wanted).err f) gvk
              ((wanted_iff types out l gvk).1 (r, t, e)),
          get-update_watches create s.watches wanted gvk,
        ),
        λ c. ap is_some (
            covered.1 (λ k m.
              let (r, t, e) = (wanted_iff types out l k).0 m in
              ground (arith, c r k t e, get-update_watches create s.watches wanted k, m))),
      )

  reconcile-failed_iff :
      (w : World) (s : State W) (name : NamespacedName) (resources : List ObjMetadata)
      (delete_rg : Bool) (h : Handled World W)
      → reconcile create types w s name resources delete_rg ≡ some h
      → ((h.failed ≡ false) ↔ CanWatch s h) × (h.events ≡ [])
  unfolding reconcile update_root_watches
  reconcile-failed_iff w s name resources delete_rg h e =
      let (out, q, r) =
        >>=-eq-some (ResourceMap.reconcile s.resource_map name resources delete_rg)
          (λ out. some (update_root_watches create types w s.watches out)) e in
      subst (λ t. ((t.failed ≡ false) ↔ CanWatch s t) × (t.events ≡ [])) (eq_of_some-eq r)
        (
          failed_of_kinds w s out
              (reconcile-ListsKinds s.resource_map name resources delete_rg out q),
          refl,
        )

  -- What a request does for a group: the entry that it makes for it in the map, whether it is to get an event,
  -- and by which name.
  pub record Serves (name : NamespacedName) (kept : Option (List ObjMetadata))
      (sends : List NamespacedName) (w : World) (s : State W) (h : Handled World W) : Type 0 where
    pub watched : IsWatchedFor types name kept s h
    pub failed_iff : (h.failed ≡ false) ↔ CanWatch s h
    pub events_lem : h.events ≡ (if h.failed then [] else sends)
    pub world_lem : h.world ≡ w

  reconcile-Serves :
      (w : World) (s : State W) (name : NamespacedName) (resources : List ObjMetadata)
      (delete_rg : Bool)
      → IsConsistent s.resource_map
      → (h : Handled World W) × (reconcile create types w s name resources delete_rg ≡ some h)
        × Serves name (keeps resources delete_rg) [] w s h
  reconcile-Serves w s name resources delete_rg v =
      let (h, e, i) = reconcile-IsWatchedFor create types w s name resources delete_rg v in
      let (f, n) = reconcile-failed_iff w s name resources delete_rg h e in
      (
        h,
        e,
        record {
          watched = i;
          failed_iff = f;
          events_lem = ground (arith, n);
          world_lem = reconcile-world create types w s name resources delete_rg h e;
        },
      )

  notify-Serves :
      (name : NamespacedName) (kept : Option (List ObjMetadata)) (w : World) (s : State W)
      (g : ResourceGroup) (h : Handled World W)
      → Serves name kept [] w s h
      → Serves name kept (g.meta_name ∷ []) w s (notify g h)
  unfolding notify
  notify-Serves name kept w s g h v = elim (Bool-cases h.failed) [
    | inl e ↦ subst (Serves name kept (g.meta_name ∷ []) w s) (sym (if_true _ _ e)) (record {
      watched = v.watched;
      failed_iff = v.failed_iff;
      events_lem = v.events_lem ∙ (if_true _ _ e ∙ sym (if_true _ _ e));
      world_lem = v.world_lem;
    })
    | inr e ↦ subst (Serves name kept (g.meta_name ∷ []) w s) (sym (if_false _ _ e)) (record {
      watched = record {
        consistent = v.watched.consistent;
        listed_lem = v.watched.listed_lem;
        resgroups_lem = v.watched.resgroups_lem;
        watched_iff = v.watched.watched_iff;
      };
      failed_iff = v.failed_iff;
      events_lem = sym (if_false _ _ e);
      world_lem = v.world_lem;
    })
  ]

-- The entry that a request makes for a group, and the event that it sends, from what the server answers.
abbrev pub serves_resources : GroupAnswer → Option (List ObjMetadata)
serves_resources (group_found g) =
    if g.deleting then none else some (g.spec.resources ++ map subgroup_object g.spec.subgroups)
serves_resources a = none

abbrev pub sends_for : GroupAnswer → List NamespacedName
sends_for (group_found g) = if g.deleting then [] else g.meta_name ∷ []
sends_for a = []

-- The server answers, and the status is not disabled.
abbrev pub is_served : GroupAnswer → Bool
is_served (group_found g) = not (is_status_disabled g)
is_served group_not_found = true
is_served group_error = false

module _ {objects : Objects} (cluster : Cluster objects) {W : Type 0}
    (create : GroupVersionKind → Option W) (types : TypeMapping) (w : cluster.World) (s : State W)
    (name : NamespacedName) where
  open cluster use {World, get_group}

  spec_resources_lem :
      (spec : ResourceGroupSpec)
      → some (spec_resources spec) ≡ some (spec.resources ++ map subgroup_object spec.subgroups)
  unfolding spec_resources
  spec_resources_lem spec =
      ap (λ l. some (spec.resources ++ l)) (to_obj_metadata_lem spec.subgroups)

  answered :
      (a : GroupAnswer)
      → get_group w name ≡ a
      → IsConsistent s.resource_map
      → is_served a ≡ true
      → (h : Handled World W) × (reconcile_kpt_group cluster create types w s name ≡ some h)
        × Serves create types name (serves_resources a) (sends_for a) w s h
  unfolding reconcile_kpt_group reconcile_found notify
  answered group_error e v h = absurd cc
  answered group_not_found e v h =
      let (k, r, i) = reconcile-Serves create types w s name [] true v in
      (k, rw (e, reconcile_kpt_group) r, i)
  answered (group_found g) e v h =
      let enabled : is_status_disabled g ≡ false = ground (arith, h) in
      elim (Bool-cases g.deleting) [
        | inl d ↦
            let (k, r, i) = reconcile-Serves create types w s name [] true v in
            (k, rw (e, reconcile_kpt_group) (if_false _ _ enabled ∙ rw d r), rw d i)
        | inr d ↦
            let (k, r, i) =
              reconcile-Serves create types w s name (spec_resources g.spec) false v in
            (
              notify g k,
              rw (e, reconcile_kpt_group)
                  (if_false _ _ enabled ∙ (if_false _ _ d ∙ rw (r, reconcile_found))),
              rw d (
                  subst (λ l. Serves create types name l (g.meta_name ∷ []) w s (notify g k))
                    (spec_resources_lem g.spec)
                    (notify-Serves create types name (some (spec_resources g.spec)) w s g k i)),
            )
      ]

  pub reconcile_kpt_group-Serves :
      IsConsistent s.resource_map
      → is_served (get_group w name) ≡ true
      → (h : Handled World W) × (reconcile_kpt_group cluster create types w s name ≡ some h)
        × Serves create types name
            (serves_resources (get_group w name))
            (sends_for (get_group w name))
            w
            s
            h
  reconcile_kpt_group-Serves = answered (get_group w name) refl
