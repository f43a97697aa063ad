-- ===== src/ResourceMap/Tests.antt =====
-- The resource map run on two groups that share a resource, and the theorems at that input.
use kpt_resource_group.ResourceMap.View.{SameView, reconcile-SameView}
use kpt_resource_group.ResourceMap.View.Repeat.{reconcile_taken_back}
use kpt_resource_group.Base.{
  none, arith, Bool-cases, inl, inr, ◌==◌, not, if◌then◌else◌, ◌≡◌, refl, true, false, Option, some,
  List, [], ◌∷◌, nat_eq, string_eq, contains, ◌&&◌, sym, ◌∙◌, eq_of_some-eq,
}
use mathlib.Core.Path.{subst}
use mathlib.Core.Option
use kpt_resource_group.Api.{NamespacedName, GroupKind, ObjMetadata, gk, named_eq, gk_eq, meta_eq}
use kpt_resource_group.GoMap.{get, put, delete}
use kpt_resource_group.KeySet
use kpt_resource_group.KeySet.Index.{trim}
use kpt_resource_group.ResourceMap.{
  ResourceMap, CachedStatus, get_status, set_status, Reconciled, new_resource_map, reconcile,
  has_resource, finish, link_all, link, file, unlink_all, unlink, forget, diff_resources, missing,
  old_resources, kinds_of, map_is_empty, has_resgroup,
}
use kpt_resource_group.ResourceMap.Links.{IsConsistent, listed}
use kpt_resource_group.ResourceMap.Groups.{Reconciles, reconcile-Reconciles}
use kpt_resource_group.ResourceMap.Stale.{stale_status_served}
use kpt_resource_group.ResourceMap.Kinds.{ListsKinds, reconcile-ListsKinds}
use kpt_resource_group.ResourceMap.History.{
  Call, reconciles, sets_status, run, step, spec_run, Stores, history-Stores,
}

abbrev pub group_a : NamespacedName
group_a = record { namespace = "ns"; name = "a" }

abbrev pub group_b : NamespacedName
group_b = record { namespace = "ns"; name = "b" }

abbrev pub deployment : ObjMetadata
deployment = record {
  namespace = "ns";
  name = "web";
  group_kind = record { group = "apps"; kind = "Deployment" };
}

abbrev config : ObjMetadata
config = record {
  namespace = "ns";
  name = "conf";
  group_kind = record { group = ""; kind = "ConfigMap" };
}

-- Both groups include the deployment.
abbrev calls : List Call
calls =
    reconciles group_a (deployment ∷ config ∷ []) false
    ∷ reconciles group_b (deployment ∷ []) false
    ∷ []

abbrev pub shared : ResourceMap
shared = record {
  res_to_resgroups =
      (deployment, record { entries = (group_a, tt) ∷ (group_b, tt) ∷ [] })
      ∷ (config, record { entries = (group_a, tt) ∷ [] })
      ∷ [];
  res_to_status = [];
  resgroup_to_resources =
      (group_a, record { entries = (deployment, tt) ∷ (config, tt) ∷ [] })
      ∷ (group_b, record { entries = (deployment, tt) ∷ [] })
      ∷ [];
  gk_to_resources =
      (gk deployment, record { entries = (deployment, tt) ∷ [] })
      ∷ (gk config, record { entries = (config, tt) ∷ [] })
      ∷ [];
}

-- A history from the empty map; to unfold it is to unfold all that it runs.
after_calls : List Call → Option ResourceMap
unfolding run step new_resource_map reconcile finish link_all link file unlink_all unlink forget
    diff_resources missing old_resources kinds_of get put delete trim KeySet.member KeySet.new_set
    KeySet.add_all KeySet.add KeySet.remove KeySet.length KeySet.to_slice named_eq gk_eq meta_eq gk
    contains
after_calls = run new_resource_map

after_calls-shared : after_calls calls ≡ some shared
unfolding after_calls
after_calls-shared = refl

pub shared-IsConsistent : IsConsistent shared
unfolding after_calls
shared-IsConsistent =
    let (m, e, v) = history-Stores calls in
    subst IsConsistent (eq_of_some-eq (sym e ∙ after_calls-shared)) v.consistent

-- The first group drops the deployment, which the second one still includes.
abbrev dropped : Reconciled
dropped = record {
  resource_map = record shared {
    res_to_resgroups =
        (deployment, record { entries = (group_b, tt) ∷ [] })
        ∷ (config, record { entries = (group_a, tt) ∷ [] })
        ∷ [];
    resgroup_to_resources =
        (group_a, record { entries = (config, tt) ∷ [] })
        ∷ (group_b, record { entries = (deployment, tt) ∷ [] })
        ∷ [];
  };
  group_kinds = gk deployment ∷ gk config ∷ [];
  group_total = 2;
}

reconcile_dropped : reconcile shared group_a (config ∷ []) false ≡ some dropped
unfolding after_calls
reconcile_dropped = refl

reconcile-Reconciles_example :
    (out : Reconciled) × (reconcile shared group_a (config ∷ []) false ≡ some out)
    × Reconciles group_a (config ∷ []) false shared out
reconcile-Reconciles_example =
    reconcile-Reconciles group_a (config ∷ []) false shared shared-IsConsistent

reconcile-ListsKinds_example : ListsKinds dropped
reconcile-ListsKinds_example =
    reconcile-ListsKinds shared group_a (config ∷ []) false dropped reconcile_dropped

history-Stores_example :
    (m : ResourceMap) × (run new_resource_map calls ≡ some m)
    × Stores m (spec_run (λ r g. false) calls)
history-Stores_example = history-Stores calls

-- Deleting both groups leaves nothing behind.
emptied :
    Option.map map_is_empty
      (after_calls (reconciles group_b [] true ∷ reconciles group_a (config ∷ []) true ∷ []))
    ≡ some true
unfolding after_calls map_is_empty
emptied = refl

abbrev late : ObjMetadata
late = record {
  namespace = "ns";
  name = "late";
  group_kind = record { group = ""; kind = "ConfigMap" };
}

abbrev late_status : CachedStatus
late_status = record { status = "Current"; conditions = []; source_hash = ""; inventory_id = "" }

-- Before a group includes the resource, the other group drops its deployment, and a status is set.
abbrev meanwhile : List Call
meanwhile = reconciles group_a (config ∷ []) false ∷ sets_status config none ∷ []

stale_status_served_example :
    (m : ResourceMap) × (out : Reconciled) × (run
        (set_status shared late (some late_status))
        meanwhile
      ≡ some m)
    × (reconcile m group_b (late ∷ []) false ≡ some out)
    × (has_resource out.resource_map late ≡ true)
    × (get_status out.resource_map late ≡ some late_status)
unfolding has_resource get meta_eq contains
stale_status_served_example =
    stale_status_served shared meanwhile group_b (late ∷ []) late late_status shared-IsConsistent
      refl refl refl

-- The same calls the other way round make the same map with its entries in another order.
abbrev swapped : ResourceMap
swapped = record {
  res_to_resgroups =
      (deployment, record { entries = (group_b, tt) ∷ (group_a, tt) ∷ [] })
      ∷ (config, record { entries = (group_a, tt) ∷ [] })
      ∷ [];
  res_to_status = [];
  resgroup_to_resources =
      (group_b, record { entries = (deployment, tt) ∷ [] })
      ∷ (group_a, record { entries = (config, tt) ∷ (deployment, tt) ∷ [] })
      ∷ [];
  gk_to_resources =
      (gk deployment, record { entries = (deployment, tt) ∷ [] })
      ∷ (gk config, record { entries = (config, tt) ∷ [] })
      ∷ [];
}

abbrev swapped_calls : List Call
swapped_calls =
    reconciles group_b (deployment ∷ []) false
    ∷ reconciles group_a (config ∷ deployment ∷ []) false
    ∷ []

after_calls-swapped : after_calls swapped_calls ≡ some swapped
unfolding after_calls
after_calls-swapped = refl

swapped-IsConsistent : IsConsistent swapped
unfolding after_calls
swapped-IsConsistent =
    let (m, e, v) = history-Stores swapped_calls in
    subst IsConsistent (eq_of_some-eq (sym e ∙ after_calls-swapped)) v.consistent

groups_differ : (group_a == group_a && group_b == group_a) ≡ false
unfolding named_eq
groups_differ = refl

only_one : (g : NamespacedName) → (group_a == g && group_b == g) ≡ false
only_one g = elim (Bool-cases (group_a == g)) [
  | inr h ↦ ground (arith, h)
  | inl h ↦
      subst (λ k. (group_a == k && group_b == k) ≡ false) ((named_eq.equals_iff group_a g).0 h)
        groups_differ
]

shared-SameView : SameView shared swapped
unfolding get get_status has_resgroup KeySet.member
shared-SameView = record {
  same_listed = λ g r. ground (arith, only_one g);
  same_resgroups = λ g. ground (arith, only_one g);
  same_status = λ r. refl;
}

reconcile-SameView_example :
    (out : Reconciled) × (out' : Reconciled) × (reconcile shared group_a (config ∷ []) false
      ≡ some out)
    × (reconcile swapped group_a (config ∷ []) false ≡ some out')
    × SameView out.resource_map out'.resource_map
    × (map_is_empty out.resource_map ≡ map_is_empty out'.resource_map)
    × ((k : GroupKind) → contains out.group_kinds k ≡ contains out'.group_kinds k)
reconcile-SameView_example =
    reconcile-SameView group_a (config ∷ []) false shared swapped shared-IsConsistent
      swapped-IsConsistent shared-SameView

abbrev group_c : NamespacedName
group_c = record { namespace = "ns"; name = "c" }

nothing_in_c : (r : ObjMetadata) → listed shared group_c r ≡ false
unfolding get named_eq
nothing_in_c r = refl

reconcile_taken_back_example :
    (out : Reconciled) × (out' : Reconciled) × (reconcile shared group_c
        (deployment ∷ late ∷ [])
        false
      ≡ some out)
    × (reconcile out.resource_map group_c [] true ≡ some out')
    × ((g : NamespacedName) (r : ObjMetadata) → listed out'.resource_map g r ≡ listed shared g r)
    × ((r : ObjMetadata)
        → get_status out'.resource_map r ≡ (
            if contains (deployment ∷ late ∷ []) r && not (has_resource shared r)
            then none
            else get_status shared r))
reconcile_taken_back_example =
    reconcile_taken_back group_c (deployment ∷ late ∷ []) shared shared-IsConsistent nothing_in_c
