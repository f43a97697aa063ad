-- ===== src/GoMap/Laws.antt =====
-- How the operations on maps act on a lookup, on the keys and on the size.
use kpt_resource_group.Base.{
  ◌≡◌, refl, false, not, ◌&&◌, ◌||◌, none, some, [], ◌∷◌, arith, contains, IsDistinct,
  if◌then◌else◌, Eq, ◌==◌, true, ◌↔◌, sym, ◌∙◌, bool_ext, ==_refl, nat_eq,
}
use kpt_resource_group.GoMap.{Map, get, has, put, delete, keys, size}

module _ {ℓ κ} {K : Type ℓ} {V : Type κ} ⦃e : Eq K⦄ where
  pub get-put :
      (m : Map K V) (k : K) (v : V) (j : K)
      → get (put m k v) j ≡ (if k == j then some v else get m j)
  unfolding get put
  get-put [] k v j = refl
  get-put ((i, w) ∷ m) k v j =
      ground (arith, e.equals_iff i k, e.equals_iff i j, e.equals_iff k j, get-put m k v j)

  pub get-delete : (m : Map K V) (k j : K) → get (delete m k) j ≡ (if k == j then none else get m j)
  unfolding get delete
  get-delete [] k j = ground arith
  get-delete ((i, w) ∷ m) k j =
      ground (arith, e.equals_iff i k, e.equals_iff i j, e.equals_iff k j, get-delete m k j)

  pub has-put : (m : Map K V) (k : K) (v : V) (j : K) → has (put m k v) j ≡ (k == j || has m j)
  has-put m k v j = ground (arith, get-put m k v j)

  pub has-delete : (m : Map K V) (k j : K) → has (delete m k) j ≡ (not (k == j) && has m j)
  has-delete m k j = ground (arith, get-delete m k j)

  pub contains-keys : (m : Map K V) (k : K) → contains (keys m) k ≡ has m k
  unfolding contains get
  contains-keys [] k = refl
  contains-keys ((j, v) ∷ m) k = ground (arith, contains-keys m k)

  pub put-IsDistinct :
      (m : Map K V) (k : K) (v : V) → IsDistinct (keys m) → IsDistinct (keys (put m k v))
  unfolding contains put
  put-IsDistinct [] k v d = (refl, tt)
  put-IsDistinct ((j, w) ∷ m) k v d = ground (
    arith,
    put-IsDistinct m k v d.1,
    e.equals_iff j k,
    e.equals_iff k j,
    contains-keys (put m k v) j,
    contains-keys m j,
    has-put m k v j,
  )

  pub delete-IsDistinct :
      (m : Map K V) (k : K) → IsDistinct (keys m) → IsDistinct (keys (delete m k))
  unfolding contains delete
  delete-IsDistinct [] k d = tt
  delete-IsDistinct ((j, w) ∷ m) k d = ground (
    arith,
    delete-IsDistinct m k d.1,
    contains-keys (delete m k) j,
    contains-keys m j,
    has-delete m k j,
  )

  -- a map with no entry for any key is empty
  pub size-eq-zero_iff : (m : Map K V) (k : K) → size m ≡ 0 → has m k ≡ false
  unfolding get
  size-eq-zero_iff [] k h = refl
  size-eq-zero_iff (x ∷ m) k h = absurd (ground arith)

  pub delete-put_self : (m : Map K V) (k : K) (v : V) → delete (put m k v) k ≡ delete m k
  unfolding put delete
  delete-put_self [] k v = ground (arith, e.equals_iff k k)
  delete-put_self ((j, w) ∷ m) k v =
      ground (arith, e.equals_iff k k, e.equals_iff j k, delete-put_self m k v)

-- A map is empty just when it has no key.
is_nil_iff {ℓ κ} :
    {K : Type ℓ} {V : Type κ} ⦃e : Eq K⦄ (m : Map K V)
    → ((size m == 0) ≡ true) ↔ ((k : K) → has m k ≡ false)
unfolding get
is_nil_iff [] = (λ h k. refl, λ h. refl)
is_nil_iff ((k, v) ∷ m) =
    (λ h. absurd (ground (arith, h)), λ h. absurd (ground (arith, h k, ==_refl k)))

-- Two maps with the same keys are both empty or none is.
pub same_nil {ℓ κ} :
    {K : Type ℓ} {V V' : Type κ} ⦃e : Eq K⦄ (t : Map K V) (t' : Map K V')
    → ((k : K) → has t k ≡ has t' k)
    → (size t == 0) ≡ (size t' == 0)
same_nil t t' h =
    bool_ext (size t == 0) (size t' == 0)
      (λ e. (is_nil_iff t').1 (λ k. sym (h k) ∙ (is_nil_iff t).0 e k))
      (λ e. (is_nil_iff t).1 (λ k. h k ∙ (is_nil_iff t').0 e k))
