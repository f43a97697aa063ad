-- ===== src/Api/Types.antt =====
-- The ResourceGroup custom resource. A type that is a Go `string` is a string here too, since the
-- code converts other strings to it (`v1alpha1.Status(result.Status)`).
use kpt_resource_group.Base.{ℕ, Bool, ◌&&◌, Option, none, List, [], String, ◌==◌, string_eq, nat_eq}
use kpt_resource_group.Api.Keys.{NamespacedName, ObjMetadata}

abbrev pub Status : Type 0
Status = String

abbrev pub in_progress : Status
in_progress = "InProgress"

abbrev pub failed : Status
failed = "Failed"

abbrev pub current : Status
current = "Current"

abbrev pub terminating : Status
terminating = "Terminating"

abbrev pub not_found : Status
not_found = "NotFound"

abbrev pub unknown : Status
unknown = "Unknown"

abbrev pub Strategy : Type 0
Strategy = String

abbrev pub Actuation : Type 0
Actuation = String

abbrev pub actuation_succeeded : Actuation
actuation_succeeded = "Succeeded"

abbrev pub Reconcile : Type 0
Reconcile = String

abbrev pub reconcile_succeeded : Reconcile
reconcile_succeeded = "Succeeded"

abbrev pub ConditionType : Type 0
ConditionType = String

abbrev pub reconciling : ConditionType
reconciling = "Reconciling"

abbrev pub stalled : ConditionType
stalled = "Stalled"

abbrev pub ownership : ConditionType
ownership = "OwnershipOverlap"

abbrev pub ConditionStatus : Type 0
ConditionStatus = String

abbrev pub true_status : ConditionStatus
true_status = "True"

abbrev pub false_status : ConditionStatus
false_status = "False"

abbrev pub unknown_status : ConditionStatus
unknown_status = "Unknown"

abbrev pub ownership_unmatch : String
ownership_unmatch = "Overlap"

abbrev pub ownership_empty : String
ownership_empty = "Unknown"

-- metav1.Time: the nanoseconds after Go's zero time.
abbrev pub Time : Type 0
Time = ℕ

pub record Condition : Type 0 where
  pub type : ConditionType
  pub status : ConditionStatus
  pub reason : String
  pub message : String
  pub last_transition_time : Time

-- Condition{}
abbrev pub no_condition : Condition
no_condition = record {
  type = "";
  status = "";
  reason = "";
  message = "";
  last_transition_time = 0;
}

-- func (cond Condition) IsEmpty()
unfoldable pub is_empty : Condition → Bool
is_empty c =
    c.type == ""
    && c.status == ""
    && c.reason == ""
    && c.message == ""
    && c.last_transition_time == 0

pub record ResourceStatus : Type 0 where
  pub obj_metadata : ObjMetadata
  pub status : Status
  pub source_hash : String
  pub conditions : List Condition
  pub strategy : Strategy
  pub actuation : Actuation
  pub reconcile : Reconcile

-- GroupMetadata has the fields of a namespaced name.
abbrev pub GroupMetadata : Type 0
GroupMetadata = NamespacedName

pub record GroupStatus : Type 0 where
  pub group_metadata : GroupMetadata
  pub status : Status
  pub conditions : List Condition

-- The descriptor, which no controller reads, is left out.
pub record ResourceGroupSpec : Type 0 where
  pub resources : List ObjMetadata
  pub subgroups : List GroupMetadata

-- `none` is a nil slice of conditions.
pub record ResourceGroupStatus : Type 0 where
  pub observed_generation : ℕ
  pub resource_statuses : List ResourceStatus
  pub subgroup_statuses : List GroupStatus
  pub conditions : Option (List Condition)

-- ResourceGroupStatus{}
abbrev pub empty_status : ResourceGroupStatus
empty_status = record {
  observed_generation = 0;
  resource_statuses = [];
  subgroup_statuses = [];
  conditions = none;
}

-- The fields of the object's metadata that the controllers read; a nil map of labels or annotations
-- answers as an empty one does, and a deletion timestamp is present or not.
pub record ResourceGroup : Type 0 where
  pub meta_name : NamespacedName
  pub labels : List (String × String)
  pub annotations : List (String × String)
  pub generation : ℕ
  pub deleting : Bool
  pub spec : ResourceGroupSpec
  pub status : ResourceGroupStatus
