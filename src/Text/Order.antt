-- ===== src/Text/Order.antt =====
-- Go's `<` on strings: the order by bytes, which for UTF-8 is the order by code points.
use Prim.Native.Nat.{compare as compare_ℕ, Ordering}
use Prim.Native.Char.{code}
use Prim.Native.String.compare
use Prim.Native.String.{compare, then}
use text.Mathlib.Text.{is_lt}
use kpt_resource_group.Base.{ℕ, ◌≡◌, refl, Bool, true, false, String, arith}

abbrev pub str_lt : String → String → Bool
str_lt s t = is_lt (compare s t)

abbrev swap : Ordering → Ordering
swap Ordering.lt = Ordering.gt
swap Ordering.eq = Ordering.eq
swap Ordering.gt = Ordering.lt

compare_swap : (a b : ℕ) → compare_ℕ b a ≡ swap (compare_ℕ a b)
compare_swap a b = ground arith

then-swap : (o p : Ordering) → then (swap o) (swap p) ≡ swap (then o p)
then-swap Ordering.lt p = refl
then-swap Ordering.eq p = refl
then-swap Ordering.gt p = refl

str_compare-swap : (s t : String) → compare t s ≡ swap (compare s t)
str_compare-swap String.[] String.[] = simp compare.nil-nil
str_compare-swap String.[] (String.◌∷◌ d t) = simp (compare.nil-cons, compare.cons-nil)
str_compare-swap (String.◌∷◌ c s) String.[] = simp (compare.nil-cons, compare.cons-nil)
str_compare-swap (String.◌∷◌ c s) (String.◌∷◌ d t) =
    rw
      (
        compare.cons-cons d c t s,
        compare.cons-cons c d s t,
        compare_swap (code c) (code d),
        str_compare-swap s t,
      )
      (then-swap (compare_ℕ (code c) (code d)) (compare s t))

pub str_lt_asymm : (s t : String) → str_lt s t ≡ true → str_lt t s ≡ false
str_lt_asymm s t h = ground (arith, str_compare-swap s t)
