-- ===== src/GoMap/Values.antt =====
-- The values of a map: what an insertion adds to them, and what a deletion takes away.
use mathlib.Core.List.{Perm}
use mathlib.Core.List.Perm
use kpt_resource_group.Base.{
  ◌≡◌, refl, false, some, List, [], ◌∷◌, ◌++◌, map, arith, Eq, ◌==◌, contains, IsDistinct,
  Bool-cases, inl, inr,
}
use kpt_resource_group.GoMap.{Map, get, has, put, delete, keys}
use kpt_resource_group.GoMap.Laws.{contains-keys}

module _ {ℓ κ} {K : Type ℓ} {V : Type κ} where
  abbrev pub values : Map K V → List V
  values m = map (λ e. e.1) m

module _ {ℓ κ} {K : Type ℓ} {V : Type κ} ⦃e : Eq K⦄ where
  pub delete_absent : (m : Map K V) (k : K) → has m k ≡ false → delete m k ≡ m
  unfolding get delete
  delete_absent [] k h = refl
  delete_absent ((j, v) ∷ m) k h = ground (arith, delete_absent m k)

  pub values-put :
      (m : Map K V) (k : K) (v : V) → has m k ≡ false → values (put m k v) ≡ values m ++ (v ∷ [])
  unfolding get put
  values-put [] k v h = refl
  values-put ((j, w) ∷ m) k v h = ground (arith, values-put m k v)

  pub values-delete :
      (m : Map K V) (k : K) (v : V)
      → IsDistinct (keys m)
      → get m k ≡ some v
      → Perm (v ∷ values (delete m k)) (values m)
  unfolding get delete contains
  values-delete [] k v d h = cc
  values-delete ((j, w) ∷ m) k v d h = elim (Bool-cases (j == k)) [
    | inl q ↦
        let same : v ≡ w = ground (arith, h, q) in
        let absent : has m k ≡ false =
          ground (arith, d.0, contains-keys m j, e.equals_iff j k, q) in
        rw (q, delete_absent m k absent, same) (Perm.refl (w ∷ values m))
    | inr q ↦
        let found : get m k ≡ some v = ground (arith, h, q) in
        rw q (
          Perm.trans (Perm.swap w v (values (delete m k)))
            (Perm.cons w (values-delete m k v d.1 found)))
  ]
