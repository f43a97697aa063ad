-- ===== src/KeySet/Index.antt =====
-- Maps from keys to sets, as resToResgroups, resgroupToResources and gkToResources are.
use kpt_resource_group.Base.{
  ◌≡◌, refl, ◌≢◌, Bool, true, false, not, ◌&&◌, none, some, arith, ◌==◌, Eq, if◌then◌else◌, nat_eq,
  ==_refl, contains, [], ◌∷◌,
}
use kpt_resource_group.GoMap.{Map, get, put, delete, has, size}
use kpt_resource_group.GoMap.Laws.{get-put, get-delete}
use kpt_resource_group.KeySet.{
  KeySet, member, length, member_of_length_zero, add, new_set, member-add, member-new_set,
}

module _ {ℓ κ} {K : Type ℓ} {V : Type κ} ⦃e : Eq K⦄ where
  -- No entry is an empty set.
  abbrev pub IsFull : Map K (KeySet V) → Type (ℓ ⊔ κ)
  IsFull m = (k : K) (s : KeySet V) → get m k ≡ some s → length s ≢ 0

  pub put-IsFull :
      (m : Map K (KeySet V)) (k : K) (s : KeySet V) → length s ≢ 0 → IsFull m → IsFull (put m k s)
  put-IsFull m k s h full j t found = ground (arith, get-put m k s j, full j t)

  pub delete-IsFull : (m : Map K (KeySet V)) (k : K) → IsFull m → IsFull (delete m k)
  delete-IsFull m k full j t found = ground (arith, get-delete m k j, full j t)

  -- m[k] is now the set `s`: the entry goes if the set is empty.
  unfoldable pub trim : Map K (KeySet V) → K → KeySet V → Map K (KeySet V)
  trim m k s = if length s == 0 then delete m k else put m k s

  pub trim-IsFull : (m : Map K (KeySet V)) (k : K) (s : KeySet V) → IsFull m → IsFull (trim m k s)
  unfolding trim
  trim-IsFull m k s full j t found = ground (arith, get-put m k s j, get-delete m k j, full j t)

module _ {ℓ κ} {K : Type ℓ} {V : Type κ} ⦃e : Eq K⦄ ⦃f : Eq V⦄ where
  -- m[k] holds v
  abbrev pub holds : Map K (KeySet V) → K → V → Bool
  holds m k v = elim (get m k) [ none ↦ false | some s ↦ member s v ]

  pub holds-put :
      (m : Map K (KeySet V)) (k : K) (s : KeySet V) (j : K) (v : V)
      → holds (put m k s) j v ≡ (if k == j then member s v else holds m j v)
  holds-put m k s j v = ground (arith, get-put m k s j)

  pub holds-delete :
      (m : Map K (KeySet V)) (k j : K) (v : V)
      → holds (delete m k) j v ≡ (not (k == j) && holds m j v)
  holds-delete m k j v = ground (arith, get-delete m k j)

  pub holds-trim :
      (m : Map K (KeySet V)) (k : K) (s : KeySet V) (j : K) (v : V)
      → holds (trim m k s) j v ≡ (if k == j then member s v else holds m j v)
  unfolding trim
  holds-trim m k s j v =
      ground (arith, holds-put m k s j v, holds-delete m k j v, member_of_length_zero s v)

module _ {ℓ} {V : Type ℓ} ⦃f : Eq V⦄ where
  pub length-ne-zero : (s : KeySet V) (v : V) → member s v ≡ true → length s ≢ 0
  length-ne-zero s v h z = ground (arith, member_of_length_zero s v z)

  pub length-add : (s : KeySet V) (v : V) → length (add s v) ≢ 0
  length-add s v = length-ne-zero (add s v) v (ground (arith, member-add s v v, ==_refl v))

  pub length-new_set : (v : V) → length (new_set (v ∷ [])) ≢ 0
  unfolding contains
  length-new_set v =
      length-ne-zero (new_set (v ∷ [])) v (ground (arith, member-new_set (v ∷ []) v, ==_refl v))

  pub some_member : (s : KeySet V) → length s ≢ 0 → (v : V) × (member s v ≡ true)
  unfolding length member get
  some_member s h = first s.entries h
    where
      first : (m : Map V (Unit {0})) → size m ≢ 0 → (v : V) × (has m v ≡ true)
      first [] h = absurd (h refl)
      first ((v, u) ∷ m) h = (v, ground (arith, ==_refl v))
