-- ===== src/Api/Subgroups.antt =====
-- What a status says of the subgroups of a spec, each by itself, beside ToObjMetadata and ToGroupStatuses.
use kpt_resource_group.Base.{◌≡◌, refl, List, [], ◌∷◌, map, arith}
use kpt_resource_group.Api.Keys.{ObjMetadata}
use kpt_resource_group.Api.Types.{GroupMetadata, ResourceStatus, GroupStatus}
use kpt_resource_group.Api.Convert.{to_obj_metadata, to_group_statuses}

-- The ResourceGroup object that a subgroup stands for.
abbrev pub subgroup_object : GroupMetadata → ObjMetadata
subgroup_object g = record {
  namespace = g.namespace;
  name = g.name;
  group_kind = record { group = "kpt.dev"; kind = "ResourceGroup" };
}

-- The entry of a subgroup has the status and the conditions of its object.
abbrev pub subgroup_entry : (ObjMetadata → ResourceStatus) → GroupMetadata → GroupStatus
subgroup_entry status_of g = record {
  group_metadata = g;
  status = (status_of (subgroup_object g)).status;
  conditions = (status_of (subgroup_object g)).conditions;
}

pub to_obj_metadata_lem : (gs : List GroupMetadata) → to_obj_metadata gs ≡ map subgroup_object gs
unfolding to_obj_metadata
to_obj_metadata_lem gs = refl

pub to_group_statuses_lem :
    (status_of : ObjMetadata → ResourceStatus) (gs : List GroupMetadata)
    → ((r : ObjMetadata) → (status_of r).obj_metadata ≡ r)
    → to_group_statuses (map status_of (to_obj_metadata gs)) ≡ map (subgroup_entry status_of) gs
unfolding to_group_statuses to_obj_metadata
to_group_statuses_lem status_of [] h = refl
to_group_statuses_lem status_of (g ∷ gs) h =
    ground (arith, h (subgroup_object g), to_group_statuses_lem status_of gs h)
