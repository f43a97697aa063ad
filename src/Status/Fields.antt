-- ===== src/Status/Fields.antt =====
-- The annotations that the cached status keeps.
use Prim.Native.String.{len}
use Prim.Native.String.len
use text.Mathlib.TextLemmas.{append-nil, nil-append}
use text.Mathlib.TextBridge.{IsPrefix}
use kpt_resource_group.Base.{
  ◌≤◌, ◌≡◌, refl, Bool, true, false, none, some, String, arith, ltb, if◌then◌else◌, string_eq,
  Bool-cases, inl, inr, nat_eq, ◌==◌,
}
use kpt_resource_group.GoMap.{Map, get, size}
use kpt_resource_group.Text.{up_to, len-up_to-le, up_to-IsPrefix}

abbrev pub source_hash_annotation_key : String
source_hash_annotation_key = "configmanagement.gke.io/token"

abbrev pub owning_inventory_key : String
owning_inventory_key = "config.k8s.io/owning-inventory"

-- m[k] of a map of strings: "" where the key is missing.
abbrev pub text_at : Map String String → String → String
text_at m k = elim (get m k) [ none ↦ "" | some v ↦ v ]

-- func GetSourceHash; an empty hash is stored as the empty default.
unfoldable pub source_hash : Map String String → String
source_hash annotations =
    if size annotations == 0
    then ""
    else let hash = text_at annotations source_hash_annotation_key in
      if ltb 7 (len hash) then up_to hash 7 else hash

-- func getOwningInventory
unfoldable pub owning_inventory : Map String String → String
owning_inventory annotations =
    if size annotations == 0 then "" else text_at annotations owning_inventory_key

-- The source hash has at most seven bytes, and is a prefix of the annotation.
pub source_hash_bounds :
    (annotations : Map String String)
    → (len (source_hash annotations) ≤ 7)
      × IsPrefix (source_hash annotations) (text_at annotations source_hash_annotation_key)
unfolding source_hash
source_hash_bounds annotations = elim (Bool-cases (size annotations == 0)) [
  | inl h ↦ rw h (omega (arith, len.nil), (hash, nil-append hash))
  | inr h ↦ rw h (cut (ltb 7 (len hash)) refl)
]
  where
    hash : String
    hash = text_at annotations source_hash_annotation_key

    cut :
        (b : Bool)
        → ltb 7 (len hash) ≡ b
        → (len (if b then up_to hash 7 else hash) ≤ 7)
          × IsPrefix (if b then up_to hash 7 else hash) hash
    cut true h = (len-up_to-le hash 7, up_to-IsPrefix hash 7)
    cut false h = (ground arith, ("", append-nil hash))
