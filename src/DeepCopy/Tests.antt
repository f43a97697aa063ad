-- ===== src/DeepCopy/Tests.antt =====
-- A group whose conditions and resources share a memory with another's, and the theorems on it. The
-- metadata of an object is its name and its labels, which are a block.
use kpt_resource_group.Base.{
  arith, ℕ, zero, suc, ◌≡◌, refl, true, Option, none, some, List, [], ◌∷◌, ◌++◌, String, leb,
}
use kpt_resource_group.Api.{ObjMetadata, Condition, no_condition}
use kpt_resource_group.DeepCopy.{
  get_elem?, get_elem?-append, option_bind, read_slice, load, read_each, take, drop, copy_slice,
  copy_each, allocate, Slice, Memory, Elements, DeepCopies, Extends, everywhere, from,
  struct_of_one, slice_copies,
}
use kpt_resource_group.DeepCopy.Types.{
  ResourceStatusOf, ResourceGroupListOf, TypeMeta, ResourceGroupCell, ResourceGroupView, SliceView,
  Array, conditions, resources, resource_statuses, items, block,
}
use kpt_resource_group.DeepCopy.Functions.{
  deep_copy, list_object, nil_object, resource_group_deep_copy,
  resource_group_list_deep_copy_object,
}
use kpt_resource_group.DeepCopy.Copies.{
  flat_copies, resource_group_copies, resource_group_list_copies,
}
use kpt_resource_group.DeepCopy.Independent.{
  resource_group_deep_copy_apart, resource_group_list_deep_copy_object_lem,
}

-- a label, and the labels of an object by name
abbrev Label : Type 0
Label = String × String

record Named (Labels : Type 0) : Type 0 where
  name : String
  labels : Labels

abbrev Store : Type 0
Store = Array (List Label) (Named Slice)

abbrev labels_of : Store → Option (List Label)
labels_of (block ls) = some ls
labels_of x = none

abbrev label_elements : Elements Store Label
label_elements = record {
  array_of = block;
  elements_of = labels_of;
  elements_of-array_of = λ xs. refl;
}

abbrev named_meta : DeepCopies Store (Named Slice) (Named (SliceView Label))
named_meta =
    struct_of_one (slice_copies label_elements flat_copies) (λ n. n.labels)
      (λ n ls. record n { labels = ls }) (λ n ls. record { name = n.name; labels = ls })
      (λ n ls. refl) (λ n ls v. refl)

-- the metadata of a list refers to nothing here
abbrev list_meta : DeepCopies Store String String
list_meta = flat_copies

abbrev deployment : ObjMetadata
deployment = record {
  namespace = "ns";
  name = "web";
  group_kind = record { group = "apps"; kind = "Deployment" };
}

abbrev ready : Condition
ready = record no_condition { type = "Ready"; status = "True" }

abbrev window : ℕ → ℕ → Slice
window a n = some (record { address = a; offset = 0; len = n })

abbrev web_status : {C : Type 0} → C → ResourceStatusOf C
web_status cs = record {
  obj_metadata = deployment;
  status = "Current";
  source_hash = "";
  conditions = cs;
  strategy = "";
  actuation = "";
  reconcile = "";
}

abbrev type_meta : TypeMeta
type_meta = record { kind = "ResourceGroup"; api_version = "kpt.dev/v1alpha1" }

-- Two slices share the array of conditions.
abbrev memory : Memory Store
memory =
    conditions (ready ∷ no_condition ∷ [])
    ∷ resources (deployment ∷ [])
    ∷ block (("app", "web") ∷ [])
    ∷ resource_statuses (web_status (window 0 1) ∷ [])
    ∷ []

-- the group with its conditions at one address and the rest from another on
abbrev group_at : ℕ → ℕ → ℕ → ℕ → ResourceGroupCell (Named Slice)
group_at labels_at resources_at statuses_at conditions_at = record {
  type_meta = type_meta;
  object_meta = record { name = "a"; labels = window labels_at 1 };
  spec = record {
    resources = window resources_at 1;
    subgroups = none;
    descriptor = record { type = ""; revision = ""; description = ""; links = none };
  };
  status = record {
    observed_generation = 3;
    resource_statuses = window statuses_at 1;
    subgroup_statuses = none;
    conditions = window conditions_at 2;
  };
}

abbrev group_view : ResourceGroupView (Named (SliceView Label))
group_view = record {
  type_meta = type_meta;
  object_meta = record { name = "a"; labels = some (("app", "web") ∷ []) };
  spec = record {
    resources = some (deployment ∷ []);
    subgroups = none;
    descriptor = record { type = ""; revision = ""; description = ""; links = none };
  };
  status = record {
    observed_generation = 3;
    resource_statuses = some (web_status (some (ready ∷ [])) ∷ []);
    subgroup_statuses = none;
    conditions = some (ready ∷ no_condition ∷ []);
  };
}

-- the arrays that come with the copy, with these conditions for the group
abbrev added : List Condition → Memory Store
added cs =
    block (("app", "web") ∷ [])
    ∷ resources (deployment ∷ [])
    ∷ conditions (ready ∷ [])
    ∷ resource_statuses (web_status (window 6 1) ∷ [])
    ∷ conditions cs
    ∷ []

-- the memory after the copy, with these conditions for the group
abbrev copied_memory : List Condition → Memory Store
copied_memory cs = memory ++ added cs

-- the conditions of the original are written over
abbrev changed_memory : List Condition → Memory Store
changed_memory cs =
    conditions []
    ∷ resources (deployment ∷ [])
    ∷ block (("app", "web") ∷ [])
    ∷ resource_statuses (web_status (window 0 1) ∷ [])
    ∷ added cs

same_from :
    (cs : List Condition) (a : ℕ) (x : Store)
    → leb 4 a ≡ true
    → get_elem? (copied_memory cs) a ≡ some x
    → get_elem? (changed_memory cs) a ≡ some x
unfolding get_elem?
same_from cs zero x l h = absurd (ground (arith, l))
same_from cs (suc a) x l h = h

resource_group_deep_copy_apart_example :
    ((resource_group_copies named_meta).read everywhere
        (changed_memory (ready ∷ no_condition ∷ []))
        (group_at 4 5 7 8)
      ≡ some group_view)
    × ((resource_group_copies named_meta).read everywhere (copied_memory []) (group_at 2 1 3 0)
        ≡ some group_view)
unfolding resource_group_copies option_bind read_slice load get_elem? read_each take drop
    resource_group_deep_copy deep_copy copy_slice copy_each allocate
resource_group_deep_copy_apart_example =
    resource_group_deep_copy_apart named_meta memory (copied_memory (ready ∷ no_condition ∷ []))
      (changed_memory (ready ∷ no_condition ∷ [])) (copied_memory []) (group_at 2 1 3 0)
      (group_at 4 5 7 8) group_view refl refl (same_from (ready ∷ no_condition ∷ []))
      (λ a x h. get_elem?-append memory (added []) a x h)

abbrev groups : ResourceGroupListOf String Slice
groups = record { type_meta = type_meta; list_meta = "12"; items = window 4 1 }

abbrev listed_memory : Memory Store
listed_memory = memory ++ (items (group_at 2 1 3 0 ∷ []) ∷ [])

resource_group_list_deep_copy_object_lem_example :
    ((c : ResourceGroupListOf String Slice) × (m₁ : Memory Store)
      × (resource_group_list_deep_copy_object named_meta.deep_copy_into list_meta.deep_copy_into
            (some groups)
            listed_memory
          ≡ some (list_object c, m₁))
      × Extends listed_memory m₁
      × ((resource_group_list_copies named_meta list_meta).read (from 5) m₁ c
          ≡ some
              (record { type_meta = type_meta; list_meta = "12"; items = some (group_view ∷ []) })))
    × (resource_group_list_deep_copy_object named_meta.deep_copy_into list_meta.deep_copy_into none
          listed_memory
        ≡ some (nil_object, listed_memory))
unfolding resource_group_list_copies resource_group_copies option_bind read_slice load get_elem?
    read_each take drop
resource_group_list_deep_copy_object_lem_example =
    resource_group_list_deep_copy_object_lem named_meta list_meta listed_memory groups
      (record { type_meta = type_meta; list_meta = "12"; items = some (group_view ∷ []) }) refl
