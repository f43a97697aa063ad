-- ===== src/KeySet/Size.antt =====
-- How many keys a set has that is built from a list.
use kpt_resource_group.Base.{
  ℕ, suc, ◌+◌, ◌≡◌, refl, not, ◌&&◌, ◌||◌, List, [], ◌∷◌, arith, contains, Eq, if◌then◌else◌,
}
use kpt_resource_group.GoMap.{Map, get, put, has, size}
use kpt_resource_group.KeySet.{KeySet, add, add_all, member, member-add, length}

module _ {ℓ} {K : Type ℓ} ⦃e : Eq K⦄ where
  -- How many different keys there are in a list.
  unfoldable pub distinct_count : List K → ℕ
  distinct_count [] = 0
  distinct_count (k ∷ ks) = let rest = distinct_count ks in if contains ks k then rest else suc rest

  -- those that a set lacks
  unfoldable lacking : KeySet K → List K → ℕ
  lacking s [] = 0
  lacking s (k ∷ ks) =
      let rest = lacking s ks in if member s k || contains ks k then rest else suc rest

  length-put :
      (m : Map K (Unit {0})) (k : K)
      → size (put m k tt) ≡ (if has m k then size m else suc (size m))
  unfolding put get
  length-put [] k = refl
  length-put ((j, u) ∷ m) k = ground (arith, length-put m k)

  length-add_key :
      (s : KeySet K) (k : K) → length (add s k) ≡ (if member s k then length s else suc (length s))
  unfolding length add member
  length-add_key s k = length-put s.entries k

  -- a key that joins the set is lacked no more
  lacking-add :
      (s : KeySet K) (k : K) (ks : List K)
      → lacking s ks ≡ lacking (add s k) ks + (if contains ks k && not (member s k) then 1 else 0)
  unfolding lacking contains
  lacking-add s k [] = refl
  lacking-add s k (j ∷ ks) =
      ground (arith, lacking-add s k ks, member-add s k j, e.equals_iff k j, e.equals_iff j k)

  length-add_all : (s : KeySet K) (ks : List K) → length (add_all s ks) ≡ length s + lacking s ks
  unfolding add_all lacking
  length-add_all s [] = ground arith
  length-add_all s (k ∷ ks) =
      ground (arith, length-add_all (add s k) ks, length-add_key s k, lacking-add s k ks)

  lacking-nothing :
      (s : KeySet K) (ks : List K) → s ≡ record { entries = [] } → lacking s ks ≡ distinct_count ks
  unfolding lacking distinct_count member get
  lacking-nothing s [] h = refl
  lacking-nothing s (k ∷ ks) h = rw h (ground (arith, lacking-nothing s ks h))

  -- A set made of a list has as many keys as the list has different ones.
  pub length-new_set_count :
      (ks : List K) → length (add_all (record { entries = [] }) ks) ≡ distinct_count ks
  unfolding length
  length-new_set_count ks = omega (
    arith,
    length-add_all (record { entries = [] }) ks,
    lacking-nothing (record { entries = [] }) ks refl,
  )
