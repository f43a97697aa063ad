-- ===== src/KeySet.antt =====
-- `resourceSet` and `resourceGroupSet` of controllers/resourcemap/resourcemap.go: two copies of one
-- set over a `map[K]struct{}`, modelled once for every type of keys.
pub mod Index
pub mod Size
use kpt_resource_group.Base.{
  ℕ, ◌≡◌, Bool, not, false, ◌&&◌, ◌||◌, List, [], ◌∷◌, arith, contains, Eq, ◌==◌,
}
use kpt_resource_group.GoMap.{Map, get, put, delete, has, keys, size}
use kpt_resource_group.GoMap.Laws.{has-put, has-delete, contains-keys, size-eq-zero_iff}

pub record KeySet {ℓ} (K : Type ℓ) : Type ℓ where
  pub entries : Map K (Unit {0})

module _ {ℓ} {K : Type ℓ} where
  unfoldable pub length : KeySet K → ℕ
  length s = size s.entries

  unfoldable pub to_slice : KeySet K → List K
  to_slice s = keys s.entries

module _ {ℓ} {K : Type ℓ} ⦃e : Eq K⦄ where
  unfoldable pub add : KeySet K → K → KeySet K
  add s k = record { entries = put s.entries k tt }

  unfoldable pub remove : KeySet K → K → KeySet K
  remove s k = record { entries = delete s.entries k }

  unfoldable pub member : KeySet K → K → Bool
  member s k = has s.entries k

  -- the loop of `newresourceSet`
  unfoldable pub add_all : KeySet K → List K → KeySet K
  add_all s [] = s
  add_all s (k ∷ ks) = add_all (add s k) ks

  unfoldable pub new_set : List K → KeySet K
  new_set ks = add_all (record { entries = [] }) ks

  pub member-add : (s : KeySet K) (k j : K) → member (add s k) j ≡ (k == j || member s j)
  unfolding member add
  member-add s k j = has-put s.entries k tt j

  pub member-remove :
      (s : KeySet K) (k j : K) → member (remove s k) j ≡ (not (k == j) && member s j)
  unfolding member remove
  member-remove s k j = has-delete s.entries k j

  member-add_all :
      (s : KeySet K) (ks : List K) (j : K) → member (add_all s ks) j ≡ (member s j || contains ks j)
  unfolding add_all contains
  member-add_all s [] j = ground arith
  member-add_all s (k ∷ ks) j = ground (arith, member-add_all (add s k) ks j, member-add s k j)

  pub member-new_set : (ks : List K) (j : K) → member (new_set ks) j ≡ contains ks j
  unfolding new_set member get
  member-new_set ks j = member-add_all (record { entries = [] }) ks j

  pub contains-to_slice : (s : KeySet K) (k : K) → contains (to_slice s) k ≡ member s k
  unfolding to_slice member
  contains-to_slice s k = contains-keys s.entries k

  pub member_of_length_zero : (s : KeySet K) (k : K) → length s ≡ 0 → member s k ≡ false
  unfolding length member
  member_of_length_zero s k h = size-eq-zero_iff s.entries k h
