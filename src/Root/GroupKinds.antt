-- ===== src/Root/GroupKinds.antt =====
-- getGroupKinds of controllers/root/util.go: the group kinds of a spec, where `none` is the nil map.
use kpt_resource_group.Base.{
  ◌≡◌, ◌∙◌, refl, Bool, false, ◌||◌, Option, none, some, List, [], ◌∷◌, map, contains, arith,
  if◌then◌else◌,
}
use kpt_resource_group.GoMap.{get}
use kpt_resource_group.KeySet
use kpt_resource_group.KeySet.{KeySet}
use kpt_resource_group.Api.{GroupKind, ObjMetadata, ResourceGroupSpec, gk, gk_eq}

-- The loop, which enters a kind that is not there yet.
unfoldable pub enter_kinds : KeySet GroupKind → List ObjMetadata → KeySet GroupKind
enter_kinds kinds [] = kinds
enter_kinds kinds (res ∷ rest) =
    enter_kinds (if KeySet.member kinds (gk res) then kinds else KeySet.add kinds (gk res)) rest

abbrev of_resources : List ObjMetadata → Option (KeySet GroupKind)
of_resources [] = none
of_resources (res ∷ rest) = some (enter_kinds (KeySet.new_set []) (res ∷ rest))

-- func getGroupKinds
unfoldable pub get_group_kinds : ResourceGroupSpec → Option (KeySet GroupKind)
get_group_kinds spec = of_resources spec.resources

member-enter_kinds :
    (rs : List ObjMetadata) (kinds : KeySet GroupKind) (k : GroupKind)
    → KeySet.member (enter_kinds kinds rs) k ≡ (KeySet.member kinds k || contains (map gk rs) k)
unfolding enter_kinds contains
member-enter_kinds [] kinds k = ground arith
member-enter_kinds (r ∷ rs) kinds k = ground (
  arith,
  member-enter_kinds rs (if KeySet.member kinds (gk r) then kinds else KeySet.add kinds (gk r)) k,
  KeySet.member-add kinds (gk r) k,
  gk_eq.equals_iff (gk r) k,
)

member-nothing : (k : GroupKind) → KeySet.member (KeySet.new_set []) k ≡ false
unfolding KeySet.member KeySet.new_set KeySet.add_all get
member-nothing k = refl

abbrev has_kind : Option (KeySet GroupKind) → GroupKind → Bool
has_kind none k = false
has_kind (some kinds) k = KeySet.member kinds k

-- A kind is in the map just when a resource of the spec has it; the nil map has none.
pub get_group_kinds_lem :
    (spec : ResourceGroupSpec) (k : GroupKind)
    → has_kind (get_group_kinds spec) k ≡ contains (map gk spec.resources) k
unfolding get_group_kinds contains
get_group_kinds_lem spec k =
    elim spec.resources as (λ rs. has_kind (of_resources rs) k ≡ contains (map gk rs) k) [
      | [] ↦ refl
      | res ∷ rest ↦
          member-enter_kinds (res ∷ rest) (KeySet.new_set []) k ∙ ground (arith, member-nothing k)
    ]
