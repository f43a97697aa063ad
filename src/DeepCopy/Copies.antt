-- ===== src/DeepCopy/Copies.antt =====
-- What a deep copy promises, for each type of the custom resource.
use kpt_resource_group.Base.{refl, Option, some}
use kpt_resource_group.Api.{ObjMetadata, GroupMetadata, Condition}
use kpt_resource_group.DeepCopy.{
  Region, Memory, Slice, slice_copies, DeepCopies, struct_of_one, struct_of_two, struct_of_three,
  Copied-pure,
}
use kpt_resource_group.DeepCopy.Types.{
  Link, DescriptorOf, GroupStatusOf, ResourceStatusOf, SpecOf, StatusOf, ResourceGroupListOf,
  ResourceGroupCell, ResourceGroupView, SliceView, Array, links_elements, conditions_elements,
  resources_elements, subgroups_elements, resource_statuses_elements, group_statuses_elements,
  items_elements,
}
use kpt_resource_group.DeepCopy.Functions.{
  flat_deep_copy_into, descriptor_deep_copy_into, group_status_deep_copy_into,
  resource_status_deep_copy_into, spec_deep_copy_into, status_deep_copy_into,
  resource_group_deep_copy_into, resource_group_list_deep_copy_into,
}

module _ {Array C : Type 0} where
  abbrev pub read_flat : Region → Memory Array → C → Option C
  read_flat r m c = some c

  unfoldable pub flat_copies : DeepCopies Array C C
  unfolding flat_deep_copy_into
  flat_copies = record {
    read = read_flat;
    deep_copy_into = flat_deep_copy_into;
    stable = λ r q m m' c v carries h. h;
    copies = λ n r m c v l h. Copied-pure read_flat n m c v h;
  }

module _ {Block ObjectMeta : Type 0} where
  unfoldable pub descriptor_copies :
      DeepCopies (Array Block ObjectMeta) (DescriptorOf Slice) (DescriptorOf (SliceView Link))
  unfolding struct_of_one descriptor_deep_copy_into slice_copies flat_copies flat_deep_copy_into
  descriptor_copies =
      let s =
        struct_of_one (slice_copies links_elements flat_copies) (λ d. d.links)
          (λ d links. record d { links = links })
          (λ d x. record {
            type = d.type;
            revision = d.revision;
            description = d.description;
            links = x;
          })
          (λ c links. refl) (λ c links x. refl) in
      record {
        read = s.read;
        deep_copy_into = descriptor_deep_copy_into;
        stable = s.stable;
        copies = s.copies;
      }

  unfoldable pub group_status_copies :
      DeepCopies
        (Array Block ObjectMeta)
        (GroupStatusOf Slice)
        (GroupStatusOf (SliceView Condition))
  unfolding struct_of_one group_status_deep_copy_into slice_copies flat_copies flat_deep_copy_into
  group_status_copies =
      let s =
        struct_of_one (slice_copies conditions_elements flat_copies) (λ s. s.conditions)
          (λ s conditions. record s { conditions = conditions })
          (λ s x. record { group_metadata = s.group_metadata; status = s.status; conditions = x })
          (λ c conditions. refl) (λ c conditions x. refl) in
      record {
        read = s.read;
        deep_copy_into = group_status_deep_copy_into;
        stable = s.stable;
        copies = s.copies;
      }

  unfoldable pub resource_status_copies :
      DeepCopies
        (Array Block ObjectMeta)
        (ResourceStatusOf Slice)
        (ResourceStatusOf (SliceView Condition))
  unfolding struct_of_one resource_status_deep_copy_into slice_copies flat_copies
      flat_deep_copy_into
  resource_status_copies =
      let s =
        struct_of_one (slice_copies conditions_elements flat_copies) (λ s. s.conditions)
          (λ s conditions. record s { conditions = conditions })
          (λ s x. record {
            obj_metadata = s.obj_metadata;
            status = s.status;
            source_hash = s.source_hash;
            strategy = s.strategy;
            actuation = s.actuation;
            reconcile = s.reconcile;
            conditions = x;
          })
          (λ c conditions. refl) (λ c conditions x. refl) in
      record {
        read = s.read;
        deep_copy_into = resource_status_deep_copy_into;
        stable = s.stable;
        copies = s.copies;
      }

  unfoldable pub spec_copies :
      DeepCopies
        (Array Block ObjectMeta)
        (SpecOf Slice Slice (DescriptorOf Slice))
        (SpecOf (SliceView ObjMetadata) (SliceView GroupMetadata) (DescriptorOf (SliceView Link)))
  unfolding struct_of_three spec_deep_copy_into slice_copies flat_copies flat_deep_copy_into
      descriptor_copies
  spec_copies =
      let s =
        struct_of_three (slice_copies resources_elements flat_copies)
          (slice_copies subgroups_elements flat_copies) descriptor_copies (λ s. s.resources)
          (λ s. s.subgroups) (λ s. s.descriptor)
          (λ s resources subgroups descriptor. record s {
            resources = resources;
            subgroups = subgroups;
            descriptor = descriptor;
          })
          (λ s x y z. record { resources = x; subgroups = y; descriptor = z })
          (λ c resources subgroups descriptor. refl) (λ c resources subgroups descriptor. refl)
          (λ c resources subgroups descriptor. refl)
          (λ c resources subgroups descriptor x y z. refl) in
      record {
        read = s.read;
        deep_copy_into = spec_deep_copy_into;
        stable = s.stable;
        copies = s.copies;
      }

  unfoldable pub status_copies : DeepCopies (Array Block ObjectMeta) (StatusOf Slice Slice Slice) (
      StatusOf
        (SliceView (ResourceStatusOf (SliceView Condition)))
        (SliceView (GroupStatusOf (SliceView Condition)))
        (SliceView Condition))
  unfolding struct_of_three status_deep_copy_into slice_copies flat_copies flat_deep_copy_into
      group_status_copies resource_status_copies
  status_copies =
      let s =
        struct_of_three (slice_copies resource_statuses_elements resource_status_copies)
          (slice_copies group_statuses_elements group_status_copies)
          (slice_copies conditions_elements flat_copies) (λ s. s.resource_statuses)
          (λ s. s.subgroup_statuses) (λ s. s.conditions)
          (λ s resource_statuses subgroup_statuses conditions. record s {
            resource_statuses = resource_statuses;
            subgroup_statuses = subgroup_statuses;
            conditions = conditions;
          })
          (λ s x y z. record {
            observed_generation = s.observed_generation;
            resource_statuses = x;
            subgroup_statuses = y;
            conditions = z;
          })
          (λ c resource_statuses subgroup_statuses conditions. refl)
          (λ c resource_statuses subgroup_statuses conditions. refl)
          (λ c resource_statuses subgroup_statuses conditions. refl)
          (λ c resource_statuses subgroup_statuses conditions x y z. refl) in
      record {
        read = s.read;
        deep_copy_into = status_deep_copy_into;
        stable = s.stable;
        copies = s.copies;
      }

  module _ {ObjectView : Type 0}
      (meta : DeepCopies (Array Block ObjectMeta) ObjectMeta ObjectView) where
    unfoldable pub resource_group_copies :
        DeepCopies
          (Array Block ObjectMeta)
          (ResourceGroupCell ObjectMeta)
          (ResourceGroupView ObjectView)
    unfolding struct_of_three resource_group_deep_copy_into spec_copies status_copies
    resource_group_copies =
        let s =
          struct_of_three meta spec_copies status_copies (λ g. g.object_meta) (λ g. g.spec)
            (λ g. g.status) (λ g m s t. record g { object_meta = m; spec = s; status = t })
            (λ g x y z. record { type_meta = g.type_meta; object_meta = x; spec = y; status = z })
            (λ g m s t. refl) (λ g m s t. refl) (λ g m s t. refl) (λ g m s t x y z. refl) in
        record {
          read = s.read;
          deep_copy_into = resource_group_deep_copy_into meta.deep_copy_into;
          stable = s.stable;
          copies = s.copies;
        }

    module _ {ListMeta ListView : Type 0}
        (list_meta : DeepCopies (Array Block ObjectMeta) ListMeta ListView) where
      unfoldable pub resource_group_list_copies :
          DeepCopies
            (Array Block ObjectMeta)
            (ResourceGroupListOf ListMeta Slice)
            (ResourceGroupListOf ListView (SliceView (ResourceGroupView ObjectView)))
      unfolding struct_of_two resource_group_list_deep_copy_into slice_copies resource_group_copies
      resource_group_list_copies =
          let s =
            struct_of_two list_meta (slice_copies items_elements resource_group_copies)
              (λ l. l.list_meta) (λ l. l.items) (λ l m s. record l { list_meta = m; items = s })
              (λ l x y. record { type_meta = l.type_meta; list_meta = x; items = y })
              (λ l m s. refl) (λ l m s. refl) (λ l m s x y. refl) in
          record {
            read = s.read;
            deep_copy_into =
                resource_group_list_deep_copy_into meta.deep_copy_into list_meta.deep_copy_into;
            stable = s.stable;
            copies = s.copies;
          }
