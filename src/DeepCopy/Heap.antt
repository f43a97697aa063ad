-- ===== src/DeepCopy/Heap.antt =====
-- A memory of arrays, the slices into them, and programs that read and allocate. An array never moves
-- and has one type of element; its address is the number of arrays that were there before it.
use kpt_resource_group.Base.{
  ℕ, zero, suc, ◌+◌, ◌≡◌, Bool, true, Option, none, some, List, [], ◌∷◌, ◌++◌, length, leb,
  if◌then◌else◌,
}

module _ {ℓ} {A : Type ℓ} where
  unfoldable pub get_elem? : List A → ℕ → Option A
  get_elem? [] n = none
  get_elem? (x ∷ xs) zero = some x
  get_elem? (x ∷ xs) (suc n) = get_elem? xs n

  unfoldable pub take : ℕ → List A → List A
  take zero xs = []
  take (suc n) [] = []
  take (suc n) (x ∷ xs) = x ∷ take n xs

  unfoldable pub drop : ℕ → List A → List A
  drop zero xs = xs
  drop (suc n) [] = []
  drop (suc n) (x ∷ xs) = drop n xs

module _ {A B : Type 0} where
  unfoldable pub option_bind : Option A → (A → Option B) → Option B
  option_bind none f = none
  option_bind (some a) f = f a

-- A slice that is not nil: a window of an array.
pub record Window : Type 0 where
  pub address : ℕ
  pub offset : ℕ
  pub len : ℕ

-- `none` is the nil slice.
abbrev pub Slice : Type 0
Slice = Option Window

-- A part of the memory, by the addresses in it.
abbrev pub Region : Type 0
Region = ℕ → Bool

abbrev pub everywhere : Region
everywhere a = true

-- the arrays that were allocated when there were `n` already, or later
abbrev pub from : ℕ → Region
from n a = leb n a

-- How the elements of one type stand in an array, which may be of another type.
pub record Elements (Array C : Type 0) : Type 0 where
  pub array_of : List C → Array
  pub elements_of : Array → Option (List C)
  pub elements_of-array_of : (xs : List C) → elements_of (array_of xs) ≡ some xs

module _ (Array : Type 0) where
  abbrev pub Memory : Type 0
  Memory = List Array

  -- `none` is a fault: an address that holds no array, an array of another type, or a window that does
  -- not lie in its array.
  abbrev pub Program : Type 0 → Type 0
  Program A = Memory → Option (A × Memory)

module _ {Array : Type 0} where
  abbrev pub pure : {A : Type 0} → A → Program Array A
  pure a m = some (a, m)

  infixl 5 ◌>>=◌
  abbrev pub ◌>>=◌ : {A B : Type 0} → Program Array A → (A → Program Array B) → Program Array B
  ◌>>=◌ f k m = option_bind (f m) (λ r. k r.0 r.1)

  module _ {C : Type 0} (deep_copy_into : C → Program Array C) where
    -- for i := range *in { (*in)[i].DeepCopyInto(&(*out)[i]) }
    unfoldable pub copy_each : List C → Program Array (List C)
    copy_each [] = pure []
    copy_each (x ∷ xs) = do y ← deep_copy_into x; ys ← copy_each xs; pure (y ∷ ys)

  module _ {C V : Type 0} (read : Region → Memory Array → C → Option V) where
    -- What values hold, all the way down, if all of it lies in a region of the memory.
    unfoldable pub read_each : Region → Memory Array → List C → Option (List V)
    read_each r m [] = some []
    read_each r m (x ∷ xs) =
        option_bind (read r m x) (λ v. option_bind (read_each r m xs) (λ vs. some (v ∷ vs)))

  module _ {C : Type 0} (elements : Elements Array C) where
    -- the elements in a window
    unfoldable pub load : Memory Array → Window → Option (List C)
    load m s = option_bind (get_elem? m s.address) (λ x. option_bind (elements.elements_of x) (λ xs.
        if leb (s.offset + s.len) (length xs) then some (take s.len (drop s.offset xs)) else none))

    abbrev pub load_elements : Window → Program Array (List C)
    load_elements s m = option_bind (load m s) (λ xs. some (xs, m))

    -- make with the elements put in, which nobody can see before
    unfoldable pub allocate : List C → Program Array Window
    allocate xs m = some (
      record { address = length m; offset = 0; len = length xs },
      m ++ (elements.array_of xs ∷ []),
    )

    module _ (deep_copy_into : C → Program Array C) where
      -- if in.F != nil { *out = make(...); for ... }
      unfoldable pub copy_slice : Slice → Program Array Slice
      copy_slice none = pure none
      copy_slice (some s) = do
        xs ← load_elements s
        ys ← copy_each deep_copy_into xs
        t ← allocate ys
        pure (some t)

    module _ {V : Type 0} (read : Region → Memory Array → C → Option V) where
      -- and what a slice holds
      unfoldable pub read_slice : Region → Memory Array → Slice → Option (Option (List V))
      read_slice r m none = some none
      read_slice r m (some s) =
          if r s.address
          then option_bind (load m s)
              (λ xs. option_bind (read_each read r m xs) (λ vs. some (some vs)))
          else none
