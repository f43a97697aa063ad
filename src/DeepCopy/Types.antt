-- ===== src/DeepCopy/Types.antt =====
-- The structs of apis/kpt.dev/v1alpha1/resourcegroup_types.go with the types of their reference fields
-- left open: slices where a struct stands in memory, and lists where it has been read.
use kpt_resource_group.Base.{ℕ, refl, Option, none, some, List, String}
use kpt_resource_group.Api.{
  ObjMetadata, GroupMetadata, Condition, Status, Strategy, Actuation, Reconcile,
}
use kpt_resource_group.DeepCopy.{Slice, Elements}

pub record Link : Type 0 where
  pub description : String
  pub url : String

pub record DescriptorOf (Links : Type 0) : Type 0 where
  pub type : String
  pub revision : String
  pub description : String
  pub links : Links

pub record GroupStatusOf (Conditions : Type 0) : Type 0 where
  pub group_metadata : GroupMetadata
  pub status : Status
  pub conditions : Conditions

pub record ResourceStatusOf (Conditions : Type 0) : Type 0 where
  pub obj_metadata : ObjMetadata
  pub status : Status
  pub source_hash : String
  pub conditions : Conditions
  pub strategy : Strategy
  pub actuation : Actuation
  pub reconcile : Reconcile

pub record SpecOf (Resources Subgroups Descriptor : Type 0) : Type 0 where
  pub resources : Resources
  pub subgroups : Subgroups
  pub descriptor : Descriptor

pub record StatusOf (ResourceStatuses GroupStatuses Conditions : Type 0) : Type 0 where
  pub observed_generation : ℕ
  pub resource_statuses : ResourceStatuses
  pub subgroup_statuses : GroupStatuses
  pub conditions : Conditions

pub record TypeMeta : Type 0 where
  pub kind : String
  pub api_version : String

pub record ResourceGroupOf (ObjectMeta Spec Status : Type 0) : Type 0 where
  pub type_meta : TypeMeta
  pub object_meta : ObjectMeta
  pub spec : Spec
  pub status : Status

pub record ResourceGroupListOf (ListMeta Items : Type 0) : Type 0 where
  pub type_meta : TypeMeta
  pub list_meta : ListMeta
  pub items : Items

-- The structs in memory, and what they read as; `none` is a nil slice.
abbrev pub ResourceGroupCell : Type 0 → Type 0
ResourceGroupCell ObjectMeta =
    ResourceGroupOf ObjectMeta (SpecOf Slice Slice (DescriptorOf Slice))
      (StatusOf Slice Slice Slice)

abbrev pub SliceView : Type 0 → Type 0
SliceView V = Option (List V)

abbrev pub ResourceGroupView : Type 0 → Type 0
ResourceGroupView ObjectMeta =
    ResourceGroupOf ObjectMeta
      (SpecOf (SliceView ObjMetadata) (SliceView GroupMetadata) (DescriptorOf (SliceView Link)))
      (StatusOf (SliceView (ResourceStatusOf (SliceView Condition)))
        (SliceView (GroupStatusOf (SliceView Condition))) (SliceView Condition))

-- The arrays by the type of their elements. A block is what the metadata of objects and lists, which
-- are types of the library, refer to.
pub data Array (Block ObjectMeta : Type 0) : Type 0 where
  links : List Link → Array Block ObjectMeta
  conditions : List Condition → Array Block ObjectMeta
  resources : List ObjMetadata → Array Block ObjectMeta
  subgroups : List GroupMetadata → Array Block ObjectMeta
  resource_statuses : List (ResourceStatusOf Slice) → Array Block ObjectMeta
  group_statuses : List (GroupStatusOf Slice) → Array Block ObjectMeta
  items : List (ResourceGroupCell ObjectMeta) → Array Block ObjectMeta
  block : Block → Array Block ObjectMeta

module _ {Block ObjectMeta : Type 0} where
  abbrev links_of : Array Block ObjectMeta → Option (List Link)
  links_of (links xs) = some xs
  links_of x = none

  abbrev pub links_elements : Elements (Array Block ObjectMeta) Link
  links_elements = record {
    array_of = links;
    elements_of = links_of;
    elements_of-array_of = λ xs. refl;
  }

  abbrev conditions_of : Array Block ObjectMeta → Option (List Condition)
  conditions_of (conditions xs) = some xs
  conditions_of x = none

  abbrev pub conditions_elements : Elements (Array Block ObjectMeta) Condition
  conditions_elements = record {
    array_of = conditions;
    elements_of = conditions_of;
    elements_of-array_of = λ xs. refl;
  }

  abbrev resources_of : Array Block ObjectMeta → Option (List ObjMetadata)
  resources_of (resources xs) = some xs
  resources_of x = none

  abbrev pub resources_elements : Elements (Array Block ObjectMeta) ObjMetadata
  resources_elements = record {
    array_of = resources;
    elements_of = resources_of;
    elements_of-array_of = λ xs. refl;
  }

  abbrev subgroups_of : Array Block ObjectMeta → Option (List GroupMetadata)
  subgroups_of (subgroups xs) = some xs
  subgroups_of x = none

  abbrev pub subgroups_elements : Elements (Array Block ObjectMeta) GroupMetadata
  subgroups_elements = record {
    array_of = subgroups;
    elements_of = subgroups_of;
    elements_of-array_of = λ xs. refl;
  }

  abbrev resource_statuses_of : Array Block ObjectMeta → Option (List (ResourceStatusOf Slice))
  resource_statuses_of (resource_statuses xs) = some xs
  resource_statuses_of x = none

  abbrev pub resource_statuses_elements : Elements (Array Block ObjectMeta) (ResourceStatusOf Slice)
  resource_statuses_elements = record {
    array_of = resource_statuses;
    elements_of = resource_statuses_of;
    elements_of-array_of = λ xs. refl;
  }

  abbrev group_statuses_of : Array Block ObjectMeta → Option (List (GroupStatusOf Slice))
  group_statuses_of (group_statuses xs) = some xs
  group_statuses_of x = none

  abbrev pub group_statuses_elements : Elements (Array Block ObjectMeta) (GroupStatusOf Slice)
  group_statuses_elements = record {
    array_of = group_statuses;
    elements_of = group_statuses_of;
    elements_of-array_of = λ xs. refl;
  }

  abbrev items_of : Array Block ObjectMeta → Option (List (ResourceGroupCell ObjectMeta))
  items_of (items xs) = some xs
  items_of x = none

  abbrev pub items_elements : Elements (Array Block ObjectMeta) (ResourceGroupCell ObjectMeta)
  items_elements = record {
    array_of = items;
    elements_of = items_of;
    elements_of-array_of = λ xs. refl;
  }
