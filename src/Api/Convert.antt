-- ===== src/Api/Convert.antt =====
-- ToObjMetadata and ToGroupStatuses.
use kpt_resource_group.Base.{List, map}
use kpt_resource_group.Api.Keys.{GroupKind, ObjMetadata}
use kpt_resource_group.Api.Types.{GroupMetadata, ResourceStatus, GroupStatus}

-- SubgroupGroupKind of groupversion_info.go
abbrev pub subgroup_group_kind : GroupKind
subgroup_group_kind = record { group = "kpt.dev"; kind = "ResourceGroup" }

unfoldable pub to_obj_metadata : List GroupMetadata → List ObjMetadata
to_obj_metadata =
    map λ g. record { namespace = g.namespace; name = g.name; group_kind = subgroup_group_kind }

unfoldable pub to_group_statuses : List ResourceStatus → List GroupStatus
to_group_statuses = map λ s. record {
  group_metadata = record { namespace = s.obj_metadata.namespace; name = s.obj_metadata.name };
  status = s.status;
  conditions = s.conditions;
}
