-- ===== src/DeepCopy/Laws.antt =====
-- What a deep copy promises, and that the copies of slices keep the promise of their elements' copies.
use kpt_resource_group.Base.{
  ℕ, zero, suc, ◌≤◌, ◌≡◌, refl, sym, ◌∙◌, ap, true, Option, none, some, List, [], ◌∷◌, ◌++◌, length,
  length-append, arith,
}
use mathlib.Core.List.{append_assoc, append-nil}
use mathlib.Core.Path.{subst}
use kpt_resource_group.DeepCopy.Heap.{
  get_elem?, take, option_bind, Region, from, Memory, Program, pure, ◌>>=◌,
}

module _ {ℓ} {A : Type ℓ} where
  pub get_elem?-append :
      (xs ys : List A) (n : ℕ) (x : A) → get_elem? xs n ≡ some x → get_elem? (xs ++ ys) n ≡ some x
  unfolding get_elem?
  get_elem?-append [] ys n x h = cc
  get_elem?-append (z ∷ xs) ys zero x h = h
  get_elem?-append (z ∷ xs) ys (suc n) x h = get_elem?-append xs ys n x h

  pub get_elem?-last : (xs : List A) (x : A) → get_elem? (xs ++ (x ∷ [])) (length xs) ≡ some x
  unfolding get_elem?
  get_elem?-last [] x = refl
  get_elem?-last (z ∷ xs) x = get_elem?-last xs x

  pub take_all : (xs : List A) → take (length xs) xs ≡ xs
  unfolding take
  take_all [] = refl
  take_all (x ∷ xs) = ap (λ ys. x ∷ ys) (take_all xs)

module _ {A B : Type 0} where
  -- a chain that ends well has its parts end well
  pub option_bind-some :
      (o : Option A) (f : A → Option B) (b : B)
      → option_bind o f ≡ some b
      → (a : A) × (o ≡ some a) × (f a ≡ some b)
  unfolding option_bind
  option_bind-some none f b h = absurd cc
  option_bind-some (some a) f b h = (a, refl, h)

module _ {Array : Type 0} where
  -- A memory with all the arrays of another, as they were, and more.
  abbrev pub Extends : Memory Array → Memory Array → Type 0
  Extends m m' = (e : Memory Array) × (m' ≡ m ++ e)

  -- The arrays in a region of one memory are in a region of another, as they are.
  abbrev pub Carries : Region → Region → Memory Array → Memory Array → Type 0
  Carries r q m m' =
      (a : ℕ) (x : Array)
      → r a ≡ true
      → get_elem? m a ≡ some x
      → (q a ≡ true) × (get_elem? m' a ≡ some x)

  pub Extends-trans : (m n k : Memory Array) → Extends m n → Extends n k → Extends m k
  Extends-trans m n k (d, p) (e, q) = (d ++ e, q ∙ ap (λ z. z ++ e) p ∙ append_assoc m d e)

  pub Extends-Carries : (r : Region) (m m' : Memory Array) → Extends m m' → Carries r r m m'
  Extends-Carries r m m' (e, p) a x h g =
      (h, subst (λ z. get_elem? z a ≡ some x) (sym p) (get_elem?-append m e a x g))

  module _ {C V : Type 0} (read : Region → Memory Array → C → Option V) where
    -- What is read in a region is read wherever the arrays of the region are.
    abbrev pub IsStable : Type 0
    IsStable =
        (r q : Region) (m m' : Memory Array) (c : C) (v : V)
        → Carries r q m m'
        → read r m c ≡ some v
        → read q m' c ≡ some v

    -- A program ends well, changes no array, and leaves something that reads as `v` out of the arrays
    -- that were not there when there were `n`.
    pub record Copied (n : ℕ) (m : Memory Array) (f : Program Array C) (v : V) : Type 0 where
      pub copy : C
      pub memory : Memory Array
      pub ends : f m ≡ some (copy, memory)
      pub extends : Extends m memory
      pub reads : read (from n) memory copy ≡ some v

module _ (Array : Type 0) where
  -- A type with a deep copy: the copy of all that can be read ends well, and shares no array with what
  -- was there.
  pub record DeepCopies (C V : Type 0) : Type 0 where
    pub read : Region → Memory Array → C → Option V
    pub deep_copy_into : C → Program Array C
    pub stable : IsStable read
    pub copies :
        (n : ℕ) (r : Region) (m : Memory Array) (c : C) (v : V)
        → n ≤ length m
        → read r m c ≡ some v
        → Copied read n m (deep_copy_into c) v

module _ {Array : Type 0} where
  -- what was read is read in a memory that has more arrays
  pub kept :
      {C V : Type 0} (d : DeepCopies Array C V) (r : Region) (m m' : Memory Array) (c : C) (v : V)
      → Extends m m'
      → d.read r m c ≡ some v
      → d.read r m' c ≡ some v
  kept d r m m' c v e h = d.stable r r m m' c v (Extends-Carries r m m' e) h

  -- the last line of a program
  pub Copied-pure :
      {C V : Type 0} (read : Region → Memory Array → C → Option V) (n : ℕ) (m : Memory Array)
      (c : C) (v : V)
      → read (from n) m c ≡ some v
      → Copied read n m (pure c) v
  Copied-pure read n m c v h = record {
    copy = c;
    memory = m;
    ends = refl;
    extends = ([], sym (append-nil m));
    reads = h;
  }

  -- the line before the others
  pub Copied-bind :
      {A U C V : Type 0} (read_first : Region → Memory Array → A → Option U)
      (read : Region → Memory Array → C → Option V) (n : ℕ) (m : Memory Array) (f : Program Array A)
      (k : A → Program Array C) (u : U) (v : V)
      → (first : Copied read_first n m f u) → Copied read n first.memory (k first.copy) v
      → Copied read n m (f >>= k) v
  unfolding option_bind
  Copied-bind read_first read n m f k u v first rest = record {
    copy = rest.copy;
    memory = rest.memory;
    ends = rw first.ends rest.ends;
    extends = Extends-trans m first.memory rest.memory first.extends rest.extends;
    reads = rest.reads;
  }

  pub Extends-length : (n : ℕ) (m m' : Memory Array) → n ≤ length m → Extends m m' → n ≤ length m'
  Extends-length n m m' h (e, p) =
      subst (λ z. n ≤ length z) (sym p) (omega (arith, h, length-append m e))
