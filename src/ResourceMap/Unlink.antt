-- ===== src/ResourceMap/Unlink.antt =====
-- The loop of `Reconcile` over `toDelete`: it takes the pairs out of the relation and nothing else,
-- and does not panic.
use kpt_resource_group.Base.{
  ◌≡◌, refl, ◌∙◌, ◌≢◌, inl, inr, true, false, not, ◌&&◌, none, some, List, [], ◌∷◌, arith, ==_refl,
  ◌==◌, contains, if◌then◌else◌, Option-cases, Bool-cases, nat_eq,
}
use kpt_resource_group.GoMap.{get, put, delete}
use kpt_resource_group.GoMap.Laws.{delete-put_self, get-put, get-delete}
use kpt_resource_group.KeySet
use kpt_resource_group.KeySet.{KeySet}
use kpt_resource_group.KeySet.Index.{put-IsFull, delete-IsFull}
use kpt_resource_group.Api.{NamespacedName, ObjMetadata, gk, named_eq, gk_eq, meta_eq}
use kpt_resource_group.ResourceMap.{ResourceMap, forget, unlink, unlink_all}
use kpt_resource_group.KeySet.Index.{trim, trim-IsFull, holds-trim}
use kpt_resource_group.ResourceMap.Links.{IsLinked, included, tracked}

-- What taking `group` from the resources `rs` does to the map.
pub record Unlinks (group : NamespacedName) (rs : List ObjMetadata) (m m' : ResourceMap)
    : Type 0 where
  pub linked : IsLinked m'
  pub included_lem :
      (r : ObjMetadata) (g : NamespacedName)
      → included m' r g ≡ (included m r g && not (contains rs r && group == g))
  pub groups_kept : m'.resgroup_to_resources ≡ m.resgroup_to_resources
  pub shrinks : (r : ObjMetadata) → tracked m r ≡ false → tracked m' r ≡ false
  pub untouched : (r : ObjMetadata) → contains rs r ≡ false → tracked m' r ≡ tracked m r
  pub status_kept :
      (r : ObjMetadata)
      → get m'.res_to_status r
        ≡ (if tracked m r && not (tracked m' r) then none else get m.res_to_status r)

module _ (group : NamespacedName) (m : ResourceMap) (v : IsLinked m) (res : ObjMetadata) where
  -- the resource keeps other groups
  unlink_some :
      (groups : KeySet NamespacedName)
      → get m.res_to_resgroups res ≡ some groups
      → KeySet.length (KeySet.remove groups group) ≢ 0
      → Unlinks group
          (res ∷ [])
          m
          (record m { res_to_resgroups = put m.res_to_resgroups res (KeySet.remove groups group) })
  unfolding contains
  unlink_some groups found left = record {
    linked = record {
      filed_lem = λ k r. ground (
        arith,
        v.filed_lem k r,
        meta_eq.equals_iff res r,
        get-put m.res_to_resgroups res (KeySet.remove groups group) r,
      );
      groups_full = put-IsFull m.res_to_resgroups res _ left v.groups_full;
      kinds_full = v.kinds_full;
    };
    included_lem = λ r g. ground (
      arith,
      meta_eq.equals_iff res r,
      KeySet.member-remove groups group g,
      get-put m.res_to_resgroups res (KeySet.remove groups group) r,
    );
    groups_kept = refl;
    shrinks = λ r h. ground (
      arith,
      meta_eq.equals_iff res r,
      get-put m.res_to_resgroups res (KeySet.remove groups group) r,
    );
    untouched = λ r h. ground (
      arith,
      meta_eq.equals_iff res r,
      get-put m.res_to_resgroups res (KeySet.remove groups group) r,
    );
    status_kept = λ r. ground (
      arith,
      meta_eq.equals_iff res r,
      get-put m.res_to_resgroups res (KeySet.remove groups group) r,
    );
  }

  -- no group includes the resource any more
  abbrev forgotten : KeySet ObjMetadata → ResourceMap
  forgotten kind = record m {
    res_to_resgroups = delete m.res_to_resgroups res;
    res_to_status = delete m.res_to_status res;
    gk_to_resources = trim m.gk_to_resources (gk res) (KeySet.remove kind res);
  }

  unlink_last :
      (groups : KeySet NamespacedName) (kind : KeySet ObjMetadata)
      → get m.res_to_resgroups res ≡ some groups
      → get m.gk_to_resources (gk res) ≡ some kind
      → KeySet.length (KeySet.remove groups group) ≡ 0
      → Unlinks group (res ∷ []) m (forgotten kind)
  unfolding contains
  unlink_last groups kind found known left = record {
    linked = record {
      filed_lem = λ k r. ground (
        arith,
        v.filed_lem k r,
        meta_eq.equals_iff res r,
        gk_eq.equals_iff (gk res) k,
        gk_eq.equals_iff (gk r) k,
        get-delete m.res_to_resgroups res r,
        KeySet.member-remove kind res r,
        holds-trim m.gk_to_resources (gk res) (KeySet.remove kind res) k r,
      );
      groups_full = delete-IsFull m.res_to_resgroups res v.groups_full;
      kinds_full = trim-IsFull m.gk_to_resources (gk res) _ v.kinds_full;
    };
    included_lem = λ r g. ground (
      arith,
      meta_eq.equals_iff res r,
      KeySet.member-remove groups group g,
      get-delete m.res_to_resgroups res r,
      KeySet.member_of_length_zero (KeySet.remove groups group) g left,
    );
    groups_kept = refl;
    shrinks = λ r h. ground (arith, get-delete m.res_to_resgroups res r);
    untouched =
        λ r h. ground (arith, meta_eq.equals_iff res r, get-delete m.res_to_resgroups res r);
    status_kept = λ r. ground (
      arith,
      meta_eq.equals_iff res r,
      get-delete m.res_to_resgroups res r,
      get-delete m.res_to_status res r,
    );
  }

  unlink_absent : get m.res_to_resgroups res ≡ none → Unlinks group (res ∷ []) m m
  unfolding contains
  unlink_absent e = record {
    linked = v;
    included_lem = λ r g. ground (arith, meta_eq.equals_iff res r);
    groups_kept = refl;
    shrinks = λ r h. h;
    untouched = λ r h. refl;
    status_kept = λ r. ground arith;
  }

  -- a resource that some group includes is filed under its kind, so the nil set is never read
  known_kind :
      tracked m res ≡ true → (s : KeySet ObjMetadata) × (get m.gk_to_resources (gk res) ≡ some s)
  known_kind h = ground (arith, v.filed_lem (gk res) res, ==_refl (gk res))

  unlink-Unlinks :
      (m' : ResourceMap) × (unlink group m res ≡ some m') × Unlinks group (res ∷ []) m m'
  unfolding unlink forget
  unlink-Unlinks = elim (Option-cases (get m.res_to_resgroups res)) [
    | inl e ↦ (m, rw (e, unlink), unlink_absent e)
    | inr (groups, e) ↦ unlink_found groups e
  ]
    where
      unlink_found :
          (groups : KeySet NamespacedName)
          → get m.res_to_resgroups res ≡ some groups
          → (m' : ResourceMap) × (unlink group m res ≡ some m') × Unlinks group (res ∷ []) m m'
      unlink_found groups e = elim (Bool-cases (KeySet.length (KeySet.remove groups group) == 0)) [
        | inl z ↦
            let (kind, k) = known_kind (ground arith) in
            (
              forgotten kind,
              rw (e, unlink, z, k, forget, delete-put_self),
              unlink_last groups kind e k (ground arith),
            )
        | inr z ↦ (_, rw (e, unlink, z), unlink_some groups e (ground arith))
      ]

Unlinks-none : (group : NamespacedName) (m : ResourceMap) → IsLinked m → Unlinks group [] m m
unfolding contains
Unlinks-none group m v = record {
  linked = v;
  included_lem = λ r g. ground arith;
  groups_kept = refl;
  shrinks = λ r h. h;
  untouched = λ r h. refl;
  status_kept = λ r. ground arith;
}

Unlinks-cons :
    (group : NamespacedName) (r : ObjMetadata) (rs : List ObjMetadata) (m m' m'' : ResourceMap)
    → Unlinks group (r ∷ []) m m'
    → Unlinks group rs m' m''
    → Unlinks group (r ∷ rs) m m''
unfolding contains
Unlinks-cons group r rs m m' m'' u w = record {
  linked = w.linked;
  included_lem = λ q g. ground (arith, u.included_lem q g, w.included_lem q g);
  groups_kept = w.groups_kept ∙ u.groups_kept;
  shrinks = λ q h. w.shrinks q (u.shrinks q h);
  untouched = λ q h. ground (arith, u.untouched q, w.untouched q);
  status_kept = λ q. ground (arith, u.status_kept q, w.status_kept q, u.shrinks q, w.shrinks q);
}

-- From a linked state the loop over any list ends without a panic, in a linked state.
pub unlink_all-Unlinks :
    (group : NamespacedName) (m : ResourceMap) (rs : List ObjMetadata)
    → IsLinked m
    → (m' : ResourceMap) × (unlink_all group m rs ≡ some m') × Unlinks group rs m m'
unfolding unlink_all
unlink_all-Unlinks group m [] v = (m, refl, Unlinks-none group m v)
unlink_all-Unlinks group m (r ∷ rs) v =
    let (m', e, u) = unlink-Unlinks group m v r in
    let (m'', e', w) = unlink_all-Unlinks group m' rs u.linked in
    (m'', rw (e, e') refl, Unlinks-cons group r rs m m' m'' u w)
