-- ===== src/Text.antt =====
-- The functions of Go's `strings` package that the controllers call, and slicing, on native texts.
-- Positions count bytes. A Go slice may cut a character; here the cut character is left out whole,
-- so the two agree wherever the cut falls between characters, as in every ASCII text.
pub mod Order
use Prim.Native.Nat.{compare as compare_ℕ, Ordering}
use Prim.Native.Char.{len_utf8}
use Prim.Native.String.slice
use Prim.Native.String.len
use Prim.Native.String.{len, slice, fits, ◌++◌ as append}
use text.Mathlib.Text.{find?}
use text.Mathlib.TextBridge.{IsPrefix}
use text.Mathlib.TextEquality.{slice-prefix}
use kpt_resource_group.Base.{
  ℕ, zero, ◌-◌, ◌≤◌, ◌≡◌, refl, ap, Bool, ◌&&◌, List, [], ◌∷◌, String, arith, leb, is_some, ◌==◌,
  string_eq,
}

-- strings.HasSuffix
unfoldable pub has_suffix : String → String → Bool
has_suffix s t = leb (len t) (len s) && slice s (len s - len t) (len s) == t

-- strings.Contains
unfoldable pub has_text : String → String → Bool
has_text s t = is_some (find? s t)

-- s[0:k]
unfoldable pub up_to : String → ℕ → String
up_to s k = slice s 0 k

-- strings.Join
unfoldable pub join : List String → String → String
join [] separator = ""
join (s ∷ []) separator = s
join (s ∷ s' ∷ rest) separator = append (append s separator) (join (s' ∷ rest) separator)

len-slice-le : (s : String) (k : ℕ) → len (slice s zero k) ≤ k
len-slice-le String.[] k = omega (arith, ap len (slice.nil zero k), len.nil)
len-slice-le (String.◌∷◌ c s) k =
    rw (slice.cons-zero c s k)
      (fitted (len-slice-le s (k - len_utf8 c)) (compare_ℕ (len_utf8 c) k) refl)
  where
    rest : String
    rest = slice s zero (k - len_utf8 c)

    fitted :
        len rest ≤ k - len_utf8 c
        → (o : Ordering) → compare_ℕ (len_utf8 c) k ≡ o
        → len (fits o c rest) ≤ k
    fitted h Ordering.lt e = ground (arith, len.cons c rest)
    fitted h Ordering.eq e = ground (arith, len.cons c rest)
    fitted h Ordering.gt e = omega (arith, len.nil)

pub len-up_to-le : (s : String) (k : ℕ) → len (up_to s k) ≤ k
unfolding up_to
len-up_to-le s k = len-slice-le s k

pub up_to-IsPrefix : (s : String) (k : ℕ) → IsPrefix (up_to s k) s
unfolding up_to
up_to-IsPrefix s k = slice-prefix s k
