-- ===== src/ResourceMap/History.antt =====
-- Histories of a resource map from `NewResourceMap` on, against the relation that they ask for.
use kpt_resource_group.Base.{
  ◌≡◌, refl, ◌∙◌, Bool, false, some, Option, List, [], ◌∷◌, arith, ◌==◌, contains, if◌then◌else◌,
  ◌>>=◌,
}
use kpt_resource_group.GoMap.{get}
use kpt_resource_group.Api.{NamespacedName, ObjMetadata, named_eq, gk_eq, meta_eq}
use kpt_resource_group.ResourceMap.{
  ResourceMap, CachedStatus, new_resource_map, reconcile, set_status,
}
use kpt_resource_group.ResourceMap.Links.{IsConsistent, included}
use kpt_resource_group.ResourceMap.Groups.{requested, reconcile-Reconciles}
use kpt_resource_group.ResourceMap.Queries.{set_status-IsConsistent, included-set_status}

-- The calls that change the map, one after the other; System has the two steps of a call of Reconcile.
pub data Call : Type 0 where
  reconciles : NamespacedName → List ObjMetadata → Bool → Call
  sets_status : ObjMetadata → Option CachedStatus → Call

unfoldable pub step : ResourceMap → Call → Option ResourceMap
step m (reconciles group resources delete_rg) = do
  out ← reconcile m group resources delete_rg
  some out.resource_map
step m (sets_status r s) = some (set_status m r s)

unfoldable pub run : ResourceMap → List Call → Option ResourceMap
run m [] = some m
run m (c ∷ cs) = do m' ← step m c; run m' cs

-- The specification: a relation between resources and groups, in which a call of `Reconcile`
-- replaces the resources of its group.
abbrev pub Relation : Type 0
Relation = ObjMetadata → NamespacedName → Bool

unfoldable pub spec_step : Relation → Call → Relation
spec_step p (reconciles group resources delete_rg) =
    λ r g. if group == g then contains (requested resources delete_rg) r else p r g
spec_step p (sets_status _ _) = p

unfoldable pub spec_run : Relation → List Call → Relation
spec_run p [] = p
spec_run p (c ∷ cs) = spec_run (spec_step p c) cs

-- The map is consistent and stores the relation.
pub record Stores (m : ResourceMap) (p : Relation) : Type 0 where
  pub consistent : IsConsistent m
  pub stored : (r : ObjMetadata) (g : NamespacedName) → included m r g ≡ p r g

pub new_resource_map-Stores : Stores new_resource_map (λ r g. false)
unfolding new_resource_map get
new_resource_map-Stores = record {
  consistent = record {
    linked = record {
      filed_lem = λ k r. ground arith;
      groups_full = λ k s e. cc;
      kinds_full = λ k s e. cc;
    };
    mirrored = λ r g. refl;
  };
  stored = λ r g. refl;
}

step-Stores :
    (m : ResourceMap) (p : Relation) (c : Call)
    → Stores m p
    → (m' : ResourceMap) × (step m c ≡ some m') × Stores m' (spec_step p c)
unfolding step spec_step
step-Stores m p (reconciles group resources delete_rg) v =
    let (out, e, w) = reconcile-Reconciles group resources delete_rg m v.consistent in
    (
      out.resource_map,
      rw e,
      record {
        consistent = w.consistent;
        stored = λ r g. ground (arith, w.included_lem r g, v.stored r g);
      },
    )
step-Stores m p (sets_status r s) v = (
  set_status m r s,
  refl,
  record {
    consistent = set_status-IsConsistent m r s v.consistent;
    stored = λ r' g. included-set_status m r s r' g ∙ v.stored r' g;
  },
)

run-Stores :
    (cs : List Call) (m : ResourceMap) (p : Relation)
    → Stores m p
    → (m' : ResourceMap) × (run m cs ≡ some m') × Stores m' (spec_run p cs)
unfolding run spec_run
run-Stores [] m p v = (m, refl, v)
run-Stores (c ∷ cs) m p v =
    let (m', e, w) = step-Stores m p c v in
    let (m'', e', w') = run-Stores cs m' (spec_step p c) w in (m'', rw e e', w')

-- Any history of Reconcile and SetStatus from an empty map runs without a panic, ends in a
-- consistent state, and stores just the relation in which the last Reconcile of a group decides
-- what the group includes.
pub history-Stores :
    (cs : List Call)
    → (m : ResourceMap) × (run new_resource_map cs ≡ some m) × Stores m (spec_run (λ r g. false) cs)
history-Stores cs = run-Stores cs new_resource_map (λ r g. false) new_resource_map-Stores
