-- ===== src/ResourceMap/Links.antt =====
-- The relation that a resource map stores, read in its three directions, and the invariant that
-- ties them together.
use kpt_resource_group.Base.{◌≡◌, Bool, ◌&&◌, ◌==◌}
use kpt_resource_group.GoMap.{has}
use kpt_resource_group.KeySet.Index.{holds, IsFull}
use kpt_resource_group.Api.{NamespacedName, GroupKind, ObjMetadata, gk, named_eq, gk_eq, meta_eq}
use kpt_resource_group.ResourceMap.{ResourceMap}

-- The entry of `res` in resToResgroups has `group`.
abbrev pub included : ResourceMap → ObjMetadata → NamespacedName → Bool
included m res group = holds m.res_to_resgroups res group

-- The entry of `group` in resgroupToResources has `res`.
abbrev pub listed : ResourceMap → NamespacedName → ObjMetadata → Bool
listed m group res = holds m.resgroup_to_resources group res

-- The entry of `kind` in gkToResources has `res`.
abbrev pub filed : ResourceMap → GroupKind → ObjMetadata → Bool
filed m kind res = holds m.gk_to_resources kind res

abbrev pub tracked : ResourceMap → ObjMetadata → Bool
tracked m res = has m.res_to_resgroups res

-- What holds also between the two loops of `Reconcile`: a resource is filed under its own kind just
-- when some group includes it, and no entry is an empty set.
pub record IsLinked (m : ResourceMap) : Type 0 where
  pub filed_lem : (k : GroupKind) (r : ObjMetadata) → filed m k r ≡ (gk r == k && tracked m r)
  pub groups_full : IsFull m.res_to_resgroups
  pub kinds_full : IsFull m.gk_to_resources

-- The invariant of the resource map: the two directions of the relation agree as well.
pub record IsConsistent (m : ResourceMap) : Type 0 where
  pub linked : IsLinked m
  pub mirrored : (r : ObjMetadata) (g : NamespacedName) → included m r g ≡ listed m g r
