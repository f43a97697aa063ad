-- ===== src/ResourceMap/Stale.antt =====
-- What becomes of a status that is stored for a resource which no group includes.
use kpt_resource_group.Base.{
  ◌≡◌, refl, ◌∙◌, Bool, true, false, not, ◌&&◌, Option, some, List, [], ◌∷◌, arith, ==_refl, ◌==◌,
  contains, Bool-cases, inl, inr,
}
use kpt_resource_group.Api.{NamespacedName, ObjMetadata, meta_eq, named_eq}
use kpt_resource_group.ResourceMap.{
  ResourceMap, CachedStatus, Reconciled, reconcile, set_status, get_status, has_resource,
}
use kpt_resource_group.ResourceMap.Links.{IsConsistent, tracked, listed}
use kpt_resource_group.ResourceMap.Groups.{Reconciles, reconcile-Reconciles, requested}
use kpt_resource_group.ResourceMap.Queries.{
  get_status-set_status, set_status-IsConsistent, has_resource_iff,
}
use kpt_resource_group.ResourceMap.History.{Call, reconciles, sets_status, step, run}

tracked-set_status :
    (m : ResourceMap) (r q : ObjMetadata) (s : Option CachedStatus)
    → tracked (set_status m r s) q ≡ tracked m q
unfolding set_status
tracked-set_status m r q s = refl

get_status-reconcile :
    (m : ResourceMap) (group : NamespacedName) (resources : List ObjMetadata) (delete_rg : Bool)
    (out : Reconciled) (r : ObjMetadata)
    → Reconciles group resources delete_rg m out
    → tracked m r ≡ false
    → get_status out.resource_map r ≡ get_status m r
unfolding get_status
get_status-reconcile m group resources delete_rg out r v h = ground (arith, v.status_lem r)

-- Whether a call neither includes the resource in a group nor sets its status.
abbrev pub leaves : ObjMetadata → Call → Bool
leaves r (reconciles group resources delete_rg) = not (contains (requested resources delete_rg) r)
leaves r (sets_status q s) = not (q == r)

abbrev pub all_leave : ObjMetadata → List Call → Bool
all_leave r [] = true
all_leave r (call ∷ calls) = leaves r call && all_leave r calls

-- The status stands in the cache of a resource that no group includes.
record IsStale (r : ObjMetadata) (c : CachedStatus) (m : ResourceMap) : Type 0 where
  consistent : IsConsistent m
  in_no_group : has_resource m r ≡ false
  stale : get_status m r ≡ some c

still_in_no_group :
    (m : ResourceMap) (group : NamespacedName) (resources : List ObjMetadata) (delete_rg : Bool)
    (out : Reconciled) (r : ObjMetadata)
    → Reconciles group resources delete_rg m out
    → contains (requested resources delete_rg) r ≡ false
    → has_resource m r ≡ false
    → IsConsistent m
    → has_resource out.resource_map r ≡ false
still_in_no_group m group resources delete_rg out r v l h w =
    elim (Bool-cases (has_resource out.resource_map r)) [
      | inr e ↦ e
      | inl e ↦
          let (g, p) = (has_resource_iff out.resource_map r v.consistent).0 e in
          let before : listed m g r ≡ true =
            ground (arith, v.included_lem r g, v.consistent.mirrored r g, w.mirrored r g) in
          absurd (ground (arith, (has_resource_iff m r w).1 (g, before)))
    ]

step-IsStale :
    (r : ObjMetadata) (c : CachedStatus) (m : ResourceMap) (call : Call)
    → leaves r call ≡ true
    → IsStale r c m
    → (m' : ResourceMap) × (step m call ≡ some m') × IsStale r c m'
unfolding step has_resource
step-IsStale r c m (reconciles group resources delete_rg) l v =
    let (out, e, w) = reconcile-Reconciles group resources delete_rg m v.consistent in
    (
      out.resource_map,
      rw e,
      record {
        consistent = w.consistent;
        in_no_group =
            still_in_no_group m group resources delete_rg out r w (ground (arith, l)) v.in_no_group
              v.consistent;
        stale = get_status-reconcile m group resources delete_rg out r w v.in_no_group ∙ v.stale;
      },
    )
step-IsStale r c m (sets_status q s) l v = (
  set_status m q s,
  refl,
  record {
    consistent = set_status-IsConsistent m q s v.consistent;
    in_no_group = tracked-set_status m q r s ∙ v.in_no_group;
    stale = ground (arith, l, get_status-set_status m q r s, v.stale);
  },
)

run-IsStale :
    (r : ObjMetadata) (c : CachedStatus) (calls : List Call) (m : ResourceMap)
    → all_leave r calls ≡ true
    → IsStale r c m
    → (m' : ResourceMap) × (run m calls ≡ some m') × IsStale r c m'
unfolding run
run-IsStale r c [] m l v = (m, refl, v)
run-IsStale r c (call ∷ calls) m l v =
    let (m', e, w) = step-IsStale r c m call (ground (arith, l)) v in
    let (m'', e', w') = run-IsStale r c calls m' (ground (arith, l)) w in (m'', rw e e', w')

set_status-IsStale :
    (r : ObjMetadata) (c : CachedStatus) (m : ResourceMap)
    → IsConsistent m
    → has_resource m r ≡ false
    → IsStale r c (set_status m r (some c))
unfolding has_resource
set_status-IsStale r c m v h = record {
  consistent = set_status-IsConsistent m r (some c) v;
  in_no_group = tracked-set_status m r r (some c) ∙ h;
  stale = ground (arith, get_status-set_status m r r (some c), ==_refl r);
}

-- A status that SetStatus stores, in a consistent state, for a resource which no group includes stays
-- in the cache through any history of Reconcile and SetStatus that neither includes the resource nor
-- sets its status. The next call of Reconcile that includes the resource in a group leaves it there as
-- well, so that GetStatus answers it for a resource that is tracked. None of these calls panics.
pub stale_status_served :
    (m : ResourceMap) (calls : List Call) (group : NamespacedName) (resources : List ObjMetadata)
    (r : ObjMetadata) (c : CachedStatus)
    → IsConsistent m
    → has_resource m r ≡ false
    → all_leave r calls ≡ true
    → contains resources r ≡ true
    → (m' : ResourceMap) × (out : Reconciled) × (run (set_status m r (some c)) calls ≡ some m')
      × (reconcile m' group resources false ≡ some out)
      × (has_resource out.resource_map r ≡ true)
      × (get_status out.resource_map r ≡ some c)
unfolding has_resource
stale_status_served m calls group resources r c v h l k =
    let (m', e, s) =
      run-IsStale r c calls (set_status m r (some c)) l (set_status-IsStale r c m v h) in
    let (out, e', w) = reconcile-Reconciles group resources false m' s.consistent in
    (
      m',
      out,
      e,
      e',
      (has_resource_iff out.resource_map r w.consistent).1 (
        group,
        ground (arith, w.included_lem r group, w.consistent.mirrored r group, ==_refl group, k),
      ),
      get_status-reconcile m' group resources false out r w s.in_no_group ∙ s.stale,
    )
