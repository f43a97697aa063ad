-- ===== src/Api/Keys.antt =====
-- The types that serve as map keys: those of apis/kpt.dev/v1alpha1/resourcegroup_types.go, and
-- `NamespacedName` and `GroupVersionKind` of the Kubernetes libraries, whose fields the program reads.
use kpt_resource_group.Base.{◌≡◌, ◌↔◌, Bool, true, ◌&&◌, String, arith, Eq, ◌==◌, string_eq}

-- types.NamespacedName
pub record NamespacedName : Type 0 where
  pub namespace : String
  pub name : String

pub record GroupKind : Type 0 where
  pub group : String
  pub kind : String

-- schema.GroupVersionKind
pub record GroupVersionKind : Type 0 where
  pub group : String
  pub version : String
  pub kind : String

pub record ObjMetadata : Type 0 where
  pub namespace : String
  pub name : String
  pub group_kind : GroupKind

pub named_beq : NamespacedName → NamespacedName → Bool
named_beq a b = a.namespace == b.namespace && a.name == b.name

pub named_beq_iff : (a b : NamespacedName) → (named_beq a b ≡ true) ↔ (a ≡ b)
unfolding named_beq
named_beq_iff a b =
    ground (arith, string_eq.equals_iff a.namespace b.namespace, string_eq.equals_iff a.name b.name)

instance unfoldable pub named_eq : Eq NamespacedName
unfolding named_beq
named_eq = record { equals = named_beq; equals_iff = named_beq_iff }

pub gk_beq : GroupKind → GroupKind → Bool
gk_beq a b = a.group == b.group && a.kind == b.kind

pub gk_beq_iff : (a b : GroupKind) → (gk_beq a b ≡ true) ↔ (a ≡ b)
unfolding gk_beq
gk_beq_iff a b =
    ground (arith, string_eq.equals_iff a.group b.group, string_eq.equals_iff a.kind b.kind)

instance unfoldable pub gk_eq : Eq GroupKind
unfolding gk_beq
gk_eq = record { equals = gk_beq; equals_iff = gk_beq_iff }

pub gvk_beq : GroupVersionKind → GroupVersionKind → Bool
gvk_beq a b = a.group == b.group && a.version == b.version && a.kind == b.kind

pub gvk_beq_iff : (a b : GroupVersionKind) → (gvk_beq a b ≡ true) ↔ (a ≡ b)
unfolding gvk_beq
gvk_beq_iff a b = ground (
  arith,
  string_eq.equals_iff a.group b.group,
  string_eq.equals_iff a.version b.version,
  string_eq.equals_iff a.kind b.kind,
)

instance unfoldable pub gvk_eq : Eq GroupVersionKind
unfolding gvk_beq
gvk_eq = record { equals = gvk_beq; equals_iff = gvk_beq_iff }

pub meta_beq : ObjMetadata → ObjMetadata → Bool
unfolding gk_beq
meta_beq a b = a.namespace == b.namespace && a.name == b.name && gk_beq a.group_kind b.group_kind

pub meta_beq_iff : (a b : ObjMetadata) → (meta_beq a b ≡ true) ↔ (a ≡ b)
unfolding meta_beq
meta_beq_iff a b = ground (
  arith,
  string_eq.equals_iff a.namespace b.namespace,
  string_eq.equals_iff a.name b.name,
  gk_beq_iff a.group_kind b.group_kind,
)

instance unfoldable pub meta_eq : Eq ObjMetadata
unfolding meta_beq
meta_eq = record { equals = meta_beq; equals_iff = meta_beq_iff }

-- func (m ObjMetadata) GK()
unfoldable pub gk : ObjMetadata → GroupKind
gk m = record { group = m.group_kind.group; kind = m.group_kind.kind }
