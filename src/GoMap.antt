-- ===== src/GoMap.antt =====
-- Go's `map[K]V`, as the list of its entries. Go leaves the order of `range` open; here it is the
-- order of first insertion, and what is proved of the program speaks of membership only.
pub mod Laws
pub mod Values
use kpt_resource_group.Base.{
  ℕ, Bool, Option, none, some, List, [], ◌∷◌, map, length, is_some, if◌then◌else◌, Eq, ◌==◌,
}

abbrev pub Map {ℓ κ} : Type ℓ → Type κ → Type (ℓ ⊔ κ)
Map K V = List (K × V)

module _ {ℓ κ} {K : Type ℓ} {V : Type κ} ⦃e : Eq K⦄ where
  -- v, ok := m[k]
  unfoldable pub get : Map K V → K → Option V
  get [] k = none
  get ((j, v) ∷ m) k = if j == k then some v else get m k

  -- _, ok := m[k]
  abbrev pub has : Map K V → K → Bool
  has m k = is_some (get m k)

  -- m[k] = v
  unfoldable pub put : Map K V → K → V → Map K V
  put [] k v = (k, v) ∷ []
  put ((j, w) ∷ m) k v = if j == k then (k, v) ∷ m else (j, w) ∷ put m k v

  -- delete(m, k)
  unfoldable pub delete : Map K V → K → Map K V
  delete [] k = []
  delete ((j, v) ∷ m) k = let rest = delete m k in if j == k then rest else (j, v) ∷ rest

module _ {ℓ κ} {K : Type ℓ} {V : Type κ} where
  -- for k := range m
  abbrev pub keys : Map K V → List K
  keys m = map (λ e. e.0) m

  -- len(m)
  abbrev pub size : Map K V → ℕ
  size m = length m
