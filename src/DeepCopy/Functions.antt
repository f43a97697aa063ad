-- ===== src/DeepCopy/Functions.antt =====
-- The functions of apis/kpt.dev/v1alpha1/zz_generated.deepcopy.go. DeepCopyInto of the metadata of
-- objects and lists is the library's, with the promise that the library makes for it.
use kpt_resource_group.Base.{Option, none, some}
use kpt_resource_group.Api.{ObjMetadata, GroupMetadata, GroupKind, Condition}
use kpt_resource_group.DeepCopy.{Program, pure, ◌>>=◌, Slice, copy_slice}
use kpt_resource_group.DeepCopy.Types.{
  Link, DescriptorOf, GroupStatusOf, ResourceStatusOf, SpecOf, StatusOf, ResourceGroupListOf,
  ResourceGroupCell, Array, links_elements, conditions_elements, resources_elements,
  subgroups_elements, resource_statuses_elements, group_statuses_elements, items_elements,
}

module _ {Array C : Type 0} where
  -- DeepCopyInto of Condition, GroupKind, GroupMetadata, Link and ObjMetadata: *out = *in. The time in a
  -- condition is copied as a value.
  unfoldable pub flat_deep_copy_into : C → Program Array C
  flat_deep_copy_into c = pure c

-- DeepCopy of a pointer, by the DeepCopyInto of its type; `none` is nil, and a pointer to a struct that
-- nobody else has is the struct.
module _ {Array C : Type 0} (deep_copy_into : C → Program Array C) where
  unfoldable pub deep_copy : Option C → Program Array (Option C)
  deep_copy none = pure none
  deep_copy (some c) = do out ← deep_copy_into c; pure (some out)

-- a runtime.Object: a nil interface, or a pointer that is not nil
pub data RuntimeObject (ObjectMeta ListMeta : Type 0) : Type 0 where
  nil_object : RuntimeObject ObjectMeta ListMeta
  group_object : ResourceGroupCell ObjectMeta → RuntimeObject ObjectMeta ListMeta
  list_object : ResourceGroupListOf ListMeta Slice → RuntimeObject ObjectMeta ListMeta

module _ {Block ObjectMeta : Type 0} where
  abbrev pub condition_deep_copy_into : Condition → Program (Array Block ObjectMeta) Condition
  condition_deep_copy_into = flat_deep_copy_into

  abbrev pub condition_deep_copy :
      Option Condition → Program (Array Block ObjectMeta) (Option Condition)
  condition_deep_copy = deep_copy condition_deep_copy_into

  abbrev pub group_kind_deep_copy_into : GroupKind → Program (Array Block ObjectMeta) GroupKind
  group_kind_deep_copy_into = flat_deep_copy_into

  abbrev pub group_kind_deep_copy :
      Option GroupKind → Program (Array Block ObjectMeta) (Option GroupKind)
  group_kind_deep_copy = deep_copy group_kind_deep_copy_into

  abbrev pub group_metadata_deep_copy_into :
      GroupMetadata → Program (Array Block ObjectMeta) GroupMetadata
  group_metadata_deep_copy_into = flat_deep_copy_into

  abbrev pub group_metadata_deep_copy :
      Option GroupMetadata → Program (Array Block ObjectMeta) (Option GroupMetadata)
  group_metadata_deep_copy = deep_copy group_metadata_deep_copy_into

  abbrev pub link_deep_copy_into : Link → Program (Array Block ObjectMeta) Link
  link_deep_copy_into = flat_deep_copy_into

  abbrev pub link_deep_copy : Option Link → Program (Array Block ObjectMeta) (Option Link)
  link_deep_copy = deep_copy link_deep_copy_into

  abbrev pub obj_metadata_deep_copy_into :
      ObjMetadata → Program (Array Block ObjectMeta) ObjMetadata
  obj_metadata_deep_copy_into = flat_deep_copy_into

  abbrev pub obj_metadata_deep_copy :
      Option ObjMetadata → Program (Array Block ObjectMeta) (Option ObjMetadata)
  obj_metadata_deep_copy = deep_copy obj_metadata_deep_copy_into

  unfoldable pub descriptor_deep_copy_into :
      DescriptorOf Slice → Program (Array Block ObjectMeta) (DescriptorOf Slice)
  descriptor_deep_copy_into d = do
    links ← copy_slice links_elements link_deep_copy_into d.links
    pure (record d { links = links })

  abbrev pub descriptor_deep_copy :
      Option (DescriptorOf Slice) → Program (Array Block ObjectMeta) (Option (DescriptorOf Slice))
  descriptor_deep_copy = deep_copy descriptor_deep_copy_into

  unfoldable pub group_status_deep_copy_into :
      GroupStatusOf Slice → Program (Array Block ObjectMeta) (GroupStatusOf Slice)
  group_status_deep_copy_into s = do
    conditions ← copy_slice conditions_elements condition_deep_copy_into s.conditions
    pure (record s { conditions = conditions })

  abbrev pub group_status_deep_copy :
      Option (GroupStatusOf Slice) → Program (Array Block ObjectMeta) (Option (GroupStatusOf Slice))
  group_status_deep_copy = deep_copy group_status_deep_copy_into

  unfoldable pub resource_status_deep_copy_into :
      ResourceStatusOf Slice → Program (Array Block ObjectMeta) (ResourceStatusOf Slice)
  resource_status_deep_copy_into s = do
    conditions ← copy_slice conditions_elements condition_deep_copy_into s.conditions
    pure (record s { conditions = conditions })

  abbrev pub resource_status_deep_copy :
      Option (ResourceStatusOf Slice)
      → Program (Array Block ObjectMeta) (Option (ResourceStatusOf Slice))
  resource_status_deep_copy = deep_copy resource_status_deep_copy_into

  unfoldable pub spec_deep_copy_into :
      SpecOf Slice Slice (DescriptorOf Slice)
      → Program (Array Block ObjectMeta) (SpecOf Slice Slice (DescriptorOf Slice))
  spec_deep_copy_into s = do
    resources ← copy_slice resources_elements obj_metadata_deep_copy_into s.resources
    subgroups ← copy_slice subgroups_elements group_metadata_deep_copy_into s.subgroups
    descriptor ← descriptor_deep_copy_into s.descriptor
    pure (record s { resources = resources; subgroups = subgroups; descriptor = descriptor })

  abbrev pub spec_deep_copy :
      Option (SpecOf Slice Slice (DescriptorOf Slice))
      → Program (Array Block ObjectMeta) (Option (SpecOf Slice Slice (DescriptorOf Slice)))
  spec_deep_copy = deep_copy spec_deep_copy_into

  unfoldable pub status_deep_copy_into :
      StatusOf Slice Slice Slice → Program (Array Block ObjectMeta) (StatusOf Slice Slice Slice)
  status_deep_copy_into s = do
    resource_statuses ←
        copy_slice resource_statuses_elements resource_status_deep_copy_into s.resource_statuses
    subgroup_statuses ←
        copy_slice group_statuses_elements group_status_deep_copy_into s.subgroup_statuses
    conditions ← copy_slice conditions_elements condition_deep_copy_into s.conditions
    pure (record s {
      resource_statuses = resource_statuses;
      subgroup_statuses = subgroup_statuses;
      conditions = conditions;
    })

  abbrev pub status_deep_copy :
      Option (StatusOf Slice Slice Slice)
      → Program (Array Block ObjectMeta) (Option (StatusOf Slice Slice Slice))
  status_deep_copy = deep_copy status_deep_copy_into

  module _ (copy_object_meta : ObjectMeta → Program (Array Block ObjectMeta) ObjectMeta) where
    unfoldable pub resource_group_deep_copy_into :
        ResourceGroupCell ObjectMeta
        → Program (Array Block ObjectMeta) (ResourceGroupCell ObjectMeta)
    resource_group_deep_copy_into g = do
      meta ← copy_object_meta g.object_meta
      spec ← spec_deep_copy_into g.spec
      status ← status_deep_copy_into g.status
      pure (record g { object_meta = meta; spec = spec; status = status })

    unfoldable pub resource_group_deep_copy :
        Option (ResourceGroupCell ObjectMeta)
        → Program (Array Block ObjectMeta) (Option (ResourceGroupCell ObjectMeta))
    resource_group_deep_copy = deep_copy resource_group_deep_copy_into

    module _ {ListMeta : Type 0}
        (copy_list_meta : ListMeta → Program (Array Block ObjectMeta) ListMeta) where
      unfoldable pub resource_group_list_deep_copy_into :
          ResourceGroupListOf ListMeta Slice
          → Program (Array Block ObjectMeta) (ResourceGroupListOf ListMeta Slice)
      resource_group_list_deep_copy_into l = do
        meta ← copy_list_meta l.list_meta
        groups ← copy_slice items_elements resource_group_deep_copy_into l.items
        pure (record l { list_meta = meta; items = groups })

      unfoldable pub resource_group_list_deep_copy :
          Option (ResourceGroupListOf ListMeta Slice)
          → Program (Array Block ObjectMeta) (Option (ResourceGroupListOf ListMeta Slice))
      resource_group_list_deep_copy = deep_copy resource_group_list_deep_copy_into

      -- func (in *ResourceGroupList) DeepCopyObject
      unfoldable pub resource_group_list_deep_copy_object :
          Option (ResourceGroupListOf ListMeta Slice)
          → Program (Array Block ObjectMeta) (RuntimeObject ObjectMeta ListMeta)
      resource_group_list_deep_copy_object p = do
        c ← resource_group_list_deep_copy p
        pure (elim c [ none ↦ nil_object | some l ↦ list_object l ])

    -- func (in *ResourceGroup) DeepCopyObject
    unfoldable pub resource_group_deep_copy_object :
        (ListMeta : Type 0)
        → Option (ResourceGroupCell ObjectMeta)
        → Program (Array Block ObjectMeta) (RuntimeObject ObjectMeta ListMeta)
    resource_group_deep_copy_object ListMeta p = do
      c ← resource_group_deep_copy p
      pure (elim c [ none ↦ nil_object | some g ↦ group_object g ])
