-- ===== src/Root/Reconcile/Watched.antt =====
-- What the resource map and the watches are after a reconciliation of the root controller.
use kpt_resource_group.Base.{
  ◌≡◌, refl, sym, ◌∙◌, ap, ◌↔◌, inl, inr, Bool, true, false, ◌||◌, Option, none, some, List, [],
  ◌∷◌, arith, ◌==◌, contains, if◌then◌else◌, >>=-eq-some, eq_of_some-eq, is_some, Option-cases,
  Bool-cases, ==_refl,
}
use kpt_resource_group.KeySet
use kpt_resource_group.KeySet.{KeySet}
use kpt_resource_group.Api.{
  NamespacedName, GroupKind, GroupVersionKind, ObjMetadata, gk, gk_eq, gvk_eq, named_eq, meta_eq,
}
use kpt_resource_group.ResourceMap.{Reconciled, has_resource, has_resgroup}
use kpt_resource_group.ResourceMap
use kpt_resource_group.ResourceMap.Links.{IsConsistent, listed}
use kpt_resource_group.ResourceMap.Groups.{Reconciles, reconcile-Reconciles}
use kpt_resource_group.ResourceMap.Kinds.{reconcile-ListsKinds, ListsKinds}
use kpt_resource_group.TypeResolver.{TypeMapping, resolve}
use kpt_resource_group.Watch.Manager.{Manager, GvkSet, update_watches, is_watched}
use kpt_resource_group.Watch.Manager.Targets.{get-update_watches, update_watches-err_iff}
use kpt_resource_group.Root.Reconcile.{State, Handled, wanted_types, update_root_watches, reconcile}

abbrev resolves_to : TypeMapping → GroupVersionKind → GroupKind → Bool
resolves_to types gvk k = elim (resolve types k) [ none ↦ false | some g ↦ g == gvk ]

unfoldable some_resolves : TypeMapping → GroupVersionKind → List GroupKind → Bool
some_resolves types gvk [] = false
some_resolves types gvk (k ∷ ks) = resolves_to types gvk k || some_resolves types gvk ks

member-wanted_types :
    (types : TypeMapping) (wanted : GvkSet) (ks : List GroupKind) (gvk : GroupVersionKind)
    → KeySet.member (wanted_types types wanted ks) gvk
      ≡ (KeySet.member wanted gvk || some_resolves types gvk ks)
unfolding wanted_types some_resolves
member-wanted_types types wanted [] gvk = ground arith
member-wanted_types types wanted (k ∷ ks) gvk =
    elim (resolve types k)
      as (λ o.
        KeySet.member
          (wanted_types types (elim o [ none ↦ wanted | some g ↦ KeySet.add wanted g ]) ks) gvk
        ≡ (KeySet.member wanted gvk
            || ((elim o [ none ↦ false | some g ↦ g == gvk ]) || some_resolves types gvk ks))) [
              | none ↦ ground (arith, member-wanted_types types wanted ks gvk)
              | some g ↦ ground (
                arith,
                member-wanted_types types (KeySet.add wanted g) ks gvk,
                KeySet.member-add wanted g gvk,
              )
            ]

resolve_of_resolves_to :
    (types : TypeMapping) (gvk : GroupVersionKind) (k : GroupKind)
    → resolves_to types gvk k ≡ true
    → resolve types k ≡ some gvk
resolve_of_resolves_to types gvk k h = elim (Option-cases (resolve types k)) [
  | inl e ↦ absurd (ground (arith, e, h))
  | inr (g, e) ↦ ground (arith, e, h, gvk_eq.equals_iff g gvk)
]

some_resolves_iff :
    (types : TypeMapping) (gvk : GroupVersionKind) (ks : List GroupKind)
    → (some_resolves types gvk ks ≡ true)
      ↔ ((k : GroupKind) × (contains ks k ≡ true) × (resolve types k ≡ some gvk))
unfolding some_resolves contains
some_resolves_iff types gvk ks = (found ks, λ (k, c, e). resolved ks k c e)
  where
    found :
        (ks : List GroupKind)
        → some_resolves types gvk ks ≡ true
        → (k : GroupKind) × (contains ks k ≡ true) × (resolve types k ≡ some gvk)
    found [] h = cc
    found (k ∷ ks) h = elim (Bool-cases (resolves_to types gvk k)) [
      | inl e ↦ (k, ground (arith, ==_refl k), resolve_of_resolves_to types gvk k e)
      | inr e ↦ let (j, c, r) = found ks (ground (arith, e, h)) in (j, ground (arith, c), r)
    ]

    resolved :
        (ks : List GroupKind) (k : GroupKind)
        → contains ks k ≡ true
        → resolve types k ≡ some gvk
        → some_resolves types gvk ks ≡ true
    resolved [] k c e = cc
    resolved (j ∷ ks) k c e = ground (arith, resolved ks k, gk_eq.equals_iff j k, ==_refl gvk, e)

-- The entry that a call makes for its group.
abbrev pub keeps : List ObjMetadata → Bool → Option (List ObjMetadata)
keeps resources delete_rg = if delete_rg then none else some resources

-- The resources of an entry, none if there is none.
abbrev pub items : Option (List ObjMetadata) → List ObjMetadata
items none = []
items (some rs) = rs

-- The map and the watches after `reconcile` of the root controller, which leaves the group with an entry
-- or without.
pub record IsWatchedFor {World W : Type 0} (types : TypeMapping) (name : NamespacedName)
    (kept : Option (List ObjMetadata)) (s : State W) (h : Handled World W) : Type 0 where
  pub consistent : IsConsistent h.state.resource_map
  pub listed_lem :
      (g : NamespacedName) (r : ObjMetadata)
      → listed h.state.resource_map g r
        ≡ (if name == g then contains (items kept) r else listed s.resource_map g r)
  pub resgroups_lem :
      (g : NamespacedName)
      → has_resgroup h.state.resource_map g
        ≡ (if name == g then is_some kept else has_resgroup s.resource_map g)
  pub watched_iff :
      h.failed ≡ false
      → (gvk : GroupVersionKind)
      → (is_watched h.state.watches gvk ≡ true) ↔ (
          (r : ObjMetadata) × (has_resource h.state.resource_map r ≡ true)
          × (resolve types (gk r) ≡ some gvk))

pub none_of_not : {A : Type 0} → (o : Option A) → is_some o ≡ false → o ≡ none
none_of_not o h = ground arith

pub wanted_iff :
    (types : TypeMapping) (out : Reconciled)
    → ListsKinds out
    → (gvk : GroupVersionKind)
    → (KeySet.member (wanted_types types (KeySet.new_set []) out.group_kinds) gvk ≡ true) ↔ (
        (r : ObjMetadata) × (has_resource out.resource_map r ≡ true)
        × (resolve types (gk r) ≡ some gvk))
unfolding contains
wanted_iff types out l gvk =
    let eq : KeySet.member (wanted_types types (KeySet.new_set []) out.group_kinds) gvk
        ≡ some_resolves types gvk out.group_kinds =
      ground (
        arith,
        member-wanted_types types (KeySet.new_set []) out.group_kinds gvk,
        KeySet.member-new_set [] gvk,
      ) in
    let (found, resolved) = some_resolves_iff types gvk out.group_kinds in
    (
      λ h.
          let (k, c, e) = found (sym eq ∙ h) in
          let (r, t, g) = (l.kinds_iff k).0 c in (r, t, ap (resolve types) g ∙ e),
      λ (r, t, e). eq ∙ resolved (gk r, (l.kinds_iff (gk r)).1 (r, t, refl), e),
    )

module _ {World W : Type 0} (create : GroupVersionKind → Option W) (types : TypeMapping) where
  watched_of_kinds :
      (w : World) (watches : Manager W) (out : Reconciled)
      → ListsKinds out
      → (update_root_watches create types w watches out).failed ≡ false
      → (gvk : GroupVersionKind)
      → (is_watched (update_root_watches create types w watches out).state.watches gvk ≡ true) ↔ (
          (r : ObjMetadata) × (has_resource out.resource_map r ≡ true)
          × (resolve types (gk r) ≡ some gvk))
  unfolding update_root_watches is_watched
  watched_of_kinds w watches out l f gvk =
      let wanted = wanted_types types (KeySet.new_set []) out.group_kinds in
      let covered = update_watches-err_iff create watches wanted in
      let (seen, asked) = wanted_iff types out l gvk in
      (
        λ h. seen (ground (arith, get-update_watches create watches wanted gvk, h)),
        λ p. covered.0 (none_of_not (update_watches create watches wanted).err f) gvk (asked p),
      )

  -- From a consistent state reconcile of the root controller never panics: the state stays
  -- consistent, the group has the resources of the call, every other group keeps its own, and
  -- without an error a type is watched just when it is what the kind of a tracked resource
  -- resolves to.
  pub reconcile-IsWatchedFor :
      (w : World) (s : State W) (name : NamespacedName) (resources : List ObjMetadata)
      (delete_rg : Bool)
      → IsConsistent s.resource_map
      → (h : Handled World W) × (reconcile create types w s name resources delete_rg ≡ some h)
        × IsWatchedFor types name (keeps resources delete_rg) s h
  unfolding reconcile update_root_watches
  reconcile-IsWatchedFor w s name resources delete_rg v =
      let (out, e, r) = reconcile-Reconciles name resources delete_rg s.resource_map v in
      let l = reconcile-ListsKinds s.resource_map name resources delete_rg out e in
      (update_root_watches create types w s.watches out, rw e, handled out r l)
    where
      handled :
          (out : Reconciled)
          → Reconciles name resources delete_rg s.resource_map out
          → ListsKinds out
          → IsWatchedFor types name
              (keeps resources delete_rg)
              s
              (update_root_watches create types w s.watches out)
      handled out r l = record {
        consistent = r.consistent;
        listed_lem =
            λ g o. ground (arith, r.included_lem o g, r.consistent.mirrored o g, v.mirrored o g);
        resgroups_lem = λ g. ground (arith, r.resgroups_lem g);
        watched_iff = λ f gvk. watched_of_kinds w s.watches out l f gvk;
      }

  -- `reconcile` writes nothing to the server.
  pub reconcile-world :
      (w : World) (s : State W) (name : NamespacedName) (resources : List ObjMetadata)
      (delete_rg : Bool) (h : Handled World W)
      → reconcile create types w s name resources delete_rg ≡ some h
      → h.world ≡ w
  unfolding reconcile update_root_watches
  reconcile-world w s name resources delete_rg h e =
      let (out, q, r) =
        >>=-eq-some (ResourceMap.reconcile s.resource_map name resources delete_rg)
          (λ out. some (update_root_watches create types w s.watches out)) e in
      ap (λ t. t.world) (sym (eq_of_some-eq r))
