-- ===== src/Root/Reconcile/Total.antt =====
-- The root controller over any history of requests, whatever the API server answers, against what each
-- group asked for last.
use mathlib.Core.Path.{subst}
use kpt_resource_group.Base.{
  ◌≡◌, ◌≢◌, refl, sym, ap, ◌∙◌, Bool, true, Option, none, some, List, [], ◌∷◌, arith, ◌==◌,
  contains, is_some, if◌then◌else◌, if_true, if_false, Bool-cases, inl, inr, ◌>>=◌,
}
use kpt_resource_group.GoMap.{get}
use kpt_resource_group.Api.{
  NamespacedName, GroupVersionKind, ResourceGroup, ObjMetadata, empty_status, named_eq, meta_eq,
}
use kpt_resource_group.ResourceMap.{
  ResourceMap, new_resource_map, set_status, has_resgroup, CachedStatus,
}
use kpt_resource_group.ResourceMap.Links.{IsConsistent, listed}
use kpt_resource_group.ResourceMap.History.{new_resource_map-Stores}
use kpt_resource_group.Status.{Objects}
use kpt_resource_group.TypeResolver.{TypeMapping}
use kpt_resource_group.ResourceMap.Queries.{set_status-IsConsistent}
use kpt_resource_group.Watch.Manager.{new_manager, run_watcher_returned}
use kpt_resource_group.Controller.Update.{
  Cluster, GroupAnswer, group_found, group_not_found, group_error,
}
use kpt_resource_group.Controller.Update.Retry.{is_refused}
use kpt_resource_group.Root.Predicate.{is_status_disabled}
use kpt_resource_group.Root.Reconcile.{State, Handled, reconcile_kpt_group}
use kpt_resource_group.Root.Reconcile.Watched.{IsWatchedFor, items}
use kpt_resource_group.Root.Reconcile.Serves.{
  serves_resources, is_served, reconcile_kpt_group-Serves,
}
use kpt_resource_group.Root.Reconcile.Disabled.{Clears, reconcile_kpt_group-disabled}

-- What happens to the controller's state: a request is reconciled, with the watchers, the types and the
-- server of that time; a watcher returns; or a status is stored.
pub data Step (World W : Type 0) : Type 0 where
  requests : (GroupVersionKind → Option W) → TypeMapping → World → NamespacedName → Step World W
  returns : GroupVersionKind → Bool → Step World W
  stores : ObjMetadata → Option CachedStatus → Step World W

abbrev pub fresh_state : {W : Type 0} → State W
unfolding new_resource_map new_manager
fresh_state = record { resource_map = new_resource_map; watches = new_manager }

-- The specification: the resources of each group that has an entry.
abbrev pub Entries : Type 0
Entries = NamespacedName → Option (List ObjMetadata)

abbrev pub no_entries : Entries
no_entries g = none

-- The map is consistent and has just these entries.
pub record Holds (m : ResourceMap) (p : Entries) : Type 0 where
  pub consistent : IsConsistent m
  pub listed_lem : (g : NamespacedName) (r : ObjMetadata) → listed m g r ≡ contains (items (p g)) r
  pub resgroups_lem : (g : NamespacedName) → has_resgroup m g ≡ is_some (p g)

new_resource_map-Holds : Holds new_resource_map no_entries
unfolding new_resource_map has_resgroup get contains
new_resource_map-Holds = record {
  consistent = new_resource_map-Stores.consistent;
  listed_lem = λ g r. refl;
  resgroups_lem = λ g. refl;
}

set_status-Holds :
    (m : ResourceMap) (p : Entries) (r : ObjMetadata) (s : Option CachedStatus)
    → Holds m p
    → Holds (set_status m r s) p
unfolding set_status has_resgroup
set_status-Holds m p r s v = record {
  consistent = set_status-IsConsistent m r s v.consistent;
  listed_lem = v.listed_lem;
  resgroups_lem = v.resgroups_lem;
}

-- A request makes another entry for its group, or leaves all as they are.
abbrev pub spec_request : Entries → NamespacedName → Option (Option (List ObjMetadata)) → Entries
spec_request p name none = p
spec_request p name (some kept) = λ g. if name == g then kept else p g

IsWatchedFor-Holds :
    {World W : Type 0} (types : TypeMapping) (name : NamespacedName)
    (kept : Option (List ObjMetadata)) (s : State W) (h : Handled World W) (p : Entries)
    → IsWatchedFor types name kept s h
    → Holds s.resource_map p
    → Holds h.state.resource_map (spec_request p name (some kept))
IsWatchedFor-Holds types name kept s h p i v = record {
  consistent = i.consistent;
  listed_lem = λ g r. ground (arith, i.listed_lem g r, v.listed_lem g r);
  resgroups_lem = λ g. ground (arith, i.resgroups_lem g, v.resgroups_lem g);
}

module _ {objects : Objects} (cluster : Cluster objects) where
  open cluster use {World}

  -- What the answer of the server asks for: nothing when it fails; no entry for a group that is gone or
  -- being deleted, and for one whose status is disabled unless clearing its status is refused; and the
  -- resources and subgroups of the spec for any other.
  abbrev pub asked : World → GroupAnswer → Option (Option (List ObjMetadata))
  asked w (group_found g) =
      if is_status_disabled g
      then (if is_refused cluster empty_status w g then none else some none)
      else some (serves_resources (group_found g))
  asked w group_not_found = some none
  asked w group_error = none

module _ {objects : Objects} (cluster : Cluster objects) {W : Type 0} where
  open cluster use {World, get_group, retries}

  module _ (create : GroupVersionKind → Option W) (types : TypeMapping) (w : World) (s : State W)
      (name : NamespacedName) (p : Entries) (v : Holds s.resource_map p) where
    -- A request returns, and leaves the entries that are asked for.
    abbrev Leaves : Option (Option (List ObjMetadata)) → Type 0
    Leaves o =
        (h : Handled World W) × (reconcile_kpt_group cluster create types w s name ≡ some h)
        × Holds h.state.resource_map (spec_request p name o)

    request_served :
        (a : GroupAnswer)
        → get_group w name ≡ a
        → is_served a ≡ true
        → Leaves (some (serves_resources a))
    request_served a e i =
        let (h, q, t) =
          reconcile_kpt_group-Serves cluster create types w s name v.consistent
            (ap is_served e ∙ i) in
        (
          h,
          q,
          IsWatchedFor-Holds types name (serves_resources a) s h p
              (subst (λ b. IsWatchedFor types name (serves_resources b) s h) e t.watched) v,
        )

    request_disabled :
        (g : ResourceGroup)
        → retries ≢ 0
        → get_group w name ≡ group_found g
        → is_status_disabled g ≡ true
        → Leaves (if is_refused cluster empty_status w g then none else some none)
    request_disabled g n e d =
        let (h, q, c) =
          reconcile_kpt_group-disabled cluster create types w s name g n v.consistent e d in
        elim (Bool-cases (is_refused cluster empty_status w g)) [
          | inl r ↦
              let same = subst (λ b. Clears cluster create types w s name g b h) r c in
              subst Leaves (sym (if_true _ _ r))
                (h, q, subst (λ t. Holds t.state.resource_map p) (sym same) v)
          | inr r ↦
              let i = (subst (λ b. Clears cluster create types w s name g b h) r c).1 in
              subst Leaves (sym (if_false _ _ r))
                (h, q, IsWatchedFor-Holds types name none s h p i v)
        ]

    request_lem :
        (a : GroupAnswer) → retries ≢ 0 → get_group w name ≡ a → Leaves (asked cluster w a)
    unfolding reconcile_kpt_group
    request_lem group_error n e = (
      record { world = w; state = s; events = []; failed = true },
      rw (e, reconcile_kpt_group),
      v,
    )
    request_lem group_not_found n e = request_served group_not_found e refl
    request_lem (group_found g) n e = elim (Bool-cases (is_status_disabled g)) [
      | inl d ↦ subst Leaves (sym (if_true _ _ d)) (request_disabled g n e d)
      | inr d ↦
          subst Leaves (sym (if_false _ _ d)) (request_served (group_found g) e (ground (arith, d)))
    ]

  unfoldable pub serve : State W → List (Step World W) → Option (State W)
  serve s [] = some s
  serve s (requests create types w name ∷ steps) = do
    h ← reconcile_kpt_group cluster create types w s name
    serve h.state steps
  serve s (returns gvk failed ∷ steps) =
      serve (record s { watches = run_watcher_returned s.watches gvk failed }) steps
  serve s (stores res status ∷ steps) =
      serve (record s { resource_map = set_status s.resource_map res status }) steps

  abbrev pub spec_serve : Entries → List (Step World W) → Entries
  spec_serve p [] = p
  spec_serve p (requests create types w name ∷ steps) =
      spec_serve (spec_request p name (asked cluster w (get_group w name))) steps
  spec_serve p (returns gvk failed ∷ steps) = spec_serve p steps
  spec_serve p (stores res status ∷ steps) = spec_serve p steps

  served :
      (steps : List (Step World W)) (s : State W) (p : Entries)
      → retries ≢ 0
      → Holds s.resource_map p
      → (s' : State W) × (serve s steps ≡ some s') × Holds s'.resource_map (spec_serve p steps)
  unfolding serve
  served [] s p n v = (s, refl, v)
  served (requests create types w name ∷ steps) s p n v =
      let (h, e, i) = request_lem create types w s name p v (get_group w name) n refl in
      let (s', e', i') =
        served steps h.state (spec_request p name (asked cluster w (get_group w name))) n i in
      (s', rw (e, serve) e', i')
  served (returns gvk failed ∷ steps) s p n v =
      served steps (record s { watches = run_watcher_returned s.watches gvk failed }) p n v
  served (stores res status ∷ steps) s p n v =
      served steps (record s { resource_map = set_status s.resource_map res status }) p n
        (set_status-Holds s.resource_map p res status v)

  -- From the state in which the process starts, and with at least one retry, any history of requests to
  -- the root controller, of watchers that return and of statuses that are stored runs without a panic,
  -- whatever the API server answers to each read and write and whichever watchers can be created. It
  -- leaves a consistent map, which has for each group just the entry that the last request for the group
  -- asked for, of those in which the server answered the read, and, if the status of the group is disabled,
  -- did not answer the write that clears it with an error that is no conflict: its
  -- resources and subgroups if it lived with its status enabled, and otherwise no entry.
  pub serve_lem :
      (steps : List (Step World W))
      → retries ≢ 0
      → (s : State W) × (serve fresh_state steps ≡ some s)
        × Holds s.resource_map (spec_serve no_entries steps)
  unfolding new_resource_map new_manager
  serve_lem steps n = served steps fresh_state no_entries n new_resource_map-Holds
