-- ===== src/DeepCopy/Slices.antt =====
-- The copies of lists and slices keep the promise of the copies of their elements.
use kpt_resource_group.Base.{
  ℕ, ◌+◌, ◌≤◌, ◌≡◌, refl, sym, ◌∙◌, ap, true, Option, none, some, List, [], ◌∷◌, ◌++◌, length, leb,
  arith, Bool-cases, inl, inr, if_true,
}
use mathlib.Core.List.{append-nil}
use kpt_resource_group.DeepCopy.Heap.{
  get_elem?, drop, option_bind, Window, Slice, Region, from, Elements, Memory, pure, ◌>>=◌, load,
  load_elements, allocate, copy_each, copy_slice, read_each, read_slice,
}
use kpt_resource_group.DeepCopy.Laws.{
  get_elem?-last, take_all, option_bind-some, Carries, Extends-Carries, IsStable, Copied,
  DeepCopies, kept, Copied-pure, Copied-bind, Extends-length,
}

module _ {Array C V : Type 0} (d : DeepCopies Array C V) where
  open d use {read, deep_copy_into}

  pub each-IsStable : IsStable (read_each read)
  unfolding read_each option_bind
  each-IsStable r q m m' [] vs c h = h
  each-IsStable r q m m' (x ∷ xs) vs c h =
      let (v, hv, h') = option_bind-some (read r m x) _ vs h in
      let (ws, hws, e) = option_bind-some (read_each read r m xs) _ vs h' in
      rw (d.stable r q m m' x v c hv, each-IsStable r q m m' xs ws c hws) e

  pub each-Copied :
      (n : ℕ) (r : Region) (m : Memory Array) (xs : List C) (vs : List V)
      → n ≤ length m
      → read_each read r m xs ≡ some vs
      → Copied (read_each read) n m (copy_each deep_copy_into xs) vs
  unfolding read_each option_bind copy_each
  each-Copied n r m [] vs l h = Copied-pure (read_each read) n m [] vs h
  each-Copied n r m (x ∷ xs) vs l h =
      let (v, hv, h') = option_bind-some (read r m x) _ vs h in
      let (ws, hws, e) = option_bind-some (read_each read r m xs) _ vs h' in
      let first = d.copies n r m x v l hv in
      let again =
        each-IsStable r r m first.memory xs ws (Extends-Carries r m first.memory first.extends)
          hws in
      let second =
        each-Copied n r first.memory xs ws (Extends-length n m first.memory l first.extends)
          again in
      let kept =
        kept d (from n) first.memory second.memory first.copy v second.extends first.reads in
      Copied-bind read (read_each read) n m (deep_copy_into x)
        (λ y. copy_each deep_copy_into xs >>= λ ys. pure (y ∷ ys)) v vs first
        (Copied-bind (read_each read) (read_each read) n first.memory (copy_each deep_copy_into xs)
          (λ ys. pure (first.copy ∷ ys)) ws vs second
          (Copied-pure (read_each read) n second.memory (first.copy ∷ second.copy) vs
            (rw (kept, second.reads) e)))

module _ {Array C : Type 0} (elements : Elements Array C) where
  pub load-allocate :
      (m : Memory Array) (xs : List C)
      → load elements
          (m ++ (elements.array_of xs ∷ []))
          (record { address = length m; offset = 0; len = length xs })
        ≡ some xs
  unfolding load option_bind drop
  load-allocate m xs =
      rw (get_elem?-last m (elements.array_of xs), elements.elements_of-array_of xs)
        (if_true {b = leb (0 + length xs) (length xs)} _ _ (ground arith) ∙ ap some (take_all xs))

module _ {Array C V : Type 0} (elements : Elements Array C) (d : DeepCopies Array C V) where
  open d use {read, deep_copy_into}

  load-Carries :
      (r q : Region) (m m' : Memory Array) (s : Window) (xs : List C)
      → Carries r q m m'
      → r s.address ≡ true
      → load elements m s ≡ some xs
      → (q s.address ≡ true) × (load elements m' s ≡ some xs)
  unfolding load option_bind
  load-Carries r q m m' s xs c h l =
      let (x, hx, l') = option_bind-some (get_elem? m s.address) _ xs l in
      let (there, same) = c s.address x h hx in (there, rw same l')

  pub slice-IsStable : IsStable (read_slice elements read)
  unfolding read_slice option_bind
  slice-IsStable r q m m' none v c h = h
  slice-IsStable r q m m' (some s) v c h = elim (Bool-cases (r s.address)) [
    | inl e ↦
        let (xs, hxs, h') = option_bind-some (load elements m s) _ v (sym (if_true _ _ e) ∙ h) in
        let (vs, hvs, h'') = option_bind-some (read_each read r m xs) _ v h' in
        let (there, same) = load-Carries r q m m' s xs c e hxs in
        rw (there, same, each-IsStable d r q m m' xs vs c hvs) h''
    | inr e ↦ absurd (ground (arith, h, e))
  ]

  allocate-Copied :
      (n : ℕ) (m : Memory Array) (xs : List C) (vs : List V)
      → n ≤ length m
      → read_each read (from n) m xs ≡ some vs
      → Copied
          (λ r k (t : Window). read_slice elements read r k (some t))
          n
          m
          (allocate elements xs)
          (some vs)
  unfolding allocate read_slice option_bind
  allocate-Copied n m xs vs l h =
      let m' = m ++ (elements.array_of xs ∷ []) in
      record {
        copy = record { address = length m; offset = 0; len = length xs };
        memory = m';
        ends = refl;
        extends = (elements.array_of xs ∷ [], refl);
        reads =
            if_true {b = from n (length m)} _ none (ground (arith, l))
            ∙ rw
                (
                  load-allocate elements m xs,
                  each-IsStable d (from n) (from n) m m' xs vs
                      (Extends-Carries (from n) m m' (elements.array_of xs ∷ [], refl)) h,
                )
                refl;
      }

  pub slice-Copied :
      (n : ℕ) (r : Region) (m : Memory Array) (s : Slice) (v : Option (List V))
      → n ≤ length m
      → read_slice elements read r m s ≡ some v
      → Copied (read_slice elements read) n m (copy_slice elements deep_copy_into s) v
  unfolding copy_slice read_slice option_bind
  slice-Copied n r m none v l h = Copied-pure (read_slice elements read) n m none v h
  slice-Copied n r m (some s) v l h = elim (Bool-cases (r s.address)) [
    | inl e ↦
        let (xs, hxs, h') = option_bind-some (load elements m s) _ v (sym (if_true _ _ e) ∙ h) in
        let (vs, hvs, h'') = option_bind-some (read_each read r m xs) _ v h' in
        let first : Copied (λ r k (ys : List C). some ys) n m (load_elements elements s) xs =
          record {
            copy = xs;
            memory = m;
            ends = rw hxs refl;
            extends = ([], sym (append-nil m));
            reads = refl;
          } in
        let second = each-Copied d n r m xs vs l hvs in
        let third =
          allocate-Copied n second.memory second.copy vs
            (Extends-length n m second.memory l second.extends) second.reads in
        Copied-bind _ (read_slice elements read) n m (load_elements elements s) _ xs v first (
          Copied-bind (read_each read) (read_slice elements read) n m (copy_each deep_copy_into xs)
            _ vs v second
            (Copied-bind _ (read_slice elements read) n second.memory
              (allocate elements second.copy) _ (some vs) v third
              (Copied-pure (read_slice elements read) n third.memory (some third.copy) v
                (third.reads ∙ h''))))
    | inr e ↦ absurd (ground (arith, h, e))
  ]

  -- A slice is copied by copying its elements.
  unfoldable pub slice_copies : DeepCopies Array Slice (Option (List V))
  slice_copies = record {
    read = read_slice elements read;
    deep_copy_into = copy_slice elements deep_copy_into;
    stable = slice-IsStable;
    copies = slice-Copied;
  }
