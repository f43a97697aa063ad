-- ===== src/DeepCopy/Structs.antt =====
-- A struct is copied by `*out = *in` and the copies of the fields that hold references, in order.
use kpt_resource_group.Base.{ℕ, ◌≤◌, ◌≡◌, Option, some, length}
use kpt_resource_group.DeepCopy.Heap.{option_bind, Region, from, Memory, Program, pure, ◌>>=◌}
use kpt_resource_group.DeepCopy.Laws.{
  option_bind-some, IsStable, DeepCopies, kept, Copied, Copied-pure, Copied-bind, Extends-length,
}

module _ {Array A U C Z : Type 0} (first : DeepCopies Array A U) (one : C → A) (set : C → A → C)
    (view : C → U → Z) (one_set : (c : C) (x : A) → one (set c x) ≡ x)
    (view_set : (c : C) (x : A) (u : U) → view (set c x) u ≡ view c u) where
  abbrev pub struct_of_one_read : Region → Memory Array → C → Option Z
  struct_of_one_read r m s = option_bind (first.read r m (one s)) (λ u. some (view s u))

  abbrev pub struct_of_one_copy : C → Program Array C
  struct_of_one_copy s = do x ← first.deep_copy_into (one s); pure (set s x)

  pub struct_of_one-IsStable : IsStable struct_of_one_read
  unfolding option_bind
  struct_of_one-IsStable r q m m' s t c h =
      let (u, r1, e) = option_bind-some (first.read r m (one s)) _ t h in
      rw (first.stable r q m m' (one s) u c r1) e

  pub struct_of_one-Copied :
      (n : ℕ) (r : Region) (m : Memory Array) (s : C) (t : Z)
      → n ≤ length m
      → struct_of_one_read r m s ≡ some t
      → Copied struct_of_one_read n m (struct_of_one_copy s) t
  unfolding option_bind
  struct_of_one-Copied n r m s t l h =
      let (u, r1, e) = option_bind-some (first.read r m (one s)) _ t h in
      let k1 = first.copies n r m (one s) u l r1 in
      Copied-bind first.read struct_of_one_read n m (first.deep_copy_into (one s)) _ u t k1 (
        Copied-pure struct_of_one_read n k1.memory (set s k1.copy) t
          (rw (one_set s k1.copy, k1.reads, view_set s k1.copy u) e))

  -- a struct with one field to copy
  unfoldable pub struct_of_one : DeepCopies Array C Z
  struct_of_one = record {
    read = struct_of_one_read;
    deep_copy_into = struct_of_one_copy;
    stable = struct_of_one-IsStable;
    copies = struct_of_one-Copied;
  }

module _ {Array A B U V C Z : Type 0} (first : DeepCopies Array A U) (second : DeepCopies Array B V)
    (one : C → A) (two : C → B) (set : C → A → B → C) (view : C → U → V → Z)
    (one_set : (c : C) (x : A) (y : B) → one (set c x y) ≡ x)
    (two_set : (c : C) (x : A) (y : B) → two (set c x y) ≡ y)
    (view_set : (c : C) (x : A) (y : B) (u : U) (v : V) → view (set c x y) u v ≡ view c u v) where
  abbrev pub struct_of_two_read : Region → Memory Array → C → Option Z
  struct_of_two_read r m s =
      option_bind (first.read r m (one s))
        (λ u. option_bind (second.read r m (two s)) (λ v. some (view s u v)))

  abbrev pub struct_of_two_copy : C → Program Array C
  struct_of_two_copy s = do
    x ← first.deep_copy_into (one s)
    y ← second.deep_copy_into (two s)
    pure (set s x y)

  pub struct_of_two-IsStable : IsStable struct_of_two_read
  unfolding option_bind
  struct_of_two-IsStable r q m m' s t c h =
      let (u, r1, h1) = option_bind-some (first.read r m (one s)) _ t h in
      let (v, r2, e) = option_bind-some (second.read r m (two s)) _ t h1 in
      rw (first.stable r q m m' (one s) u c r1, second.stable r q m m' (two s) v c r2) e

  pub struct_of_two-Copied :
      (n : ℕ) (r : Region) (m : Memory Array) (s : C) (t : Z)
      → n ≤ length m
      → struct_of_two_read r m s ≡ some t
      → Copied struct_of_two_read n m (struct_of_two_copy s) t
  unfolding option_bind
  struct_of_two-Copied n r m s t l h =
      let (u, r1, h1) = option_bind-some (first.read r m (one s)) _ t h in
      let (v, r2, e) = option_bind-some (second.read r m (two s)) _ t h1 in
      let k1 = first.copies n r m (one s) u l r1 in
      let l1 = Extends-length n m k1.memory l k1.extends in
      let k2 =
        second.copies n r k1.memory (two s) v l1
          (kept second r m k1.memory (two s) v k1.extends r2) in
      Copied-bind first.read struct_of_two_read n m (first.deep_copy_into (one s)) _ u t k1 (
        Copied-bind second.read struct_of_two_read n k1.memory (second.deep_copy_into (two s)) _ v t
          k2
          (Copied-pure struct_of_two_read n k2.memory (set s k1.copy k2.copy) t (
            rw
              (
                one_set s k1.copy k2.copy,
                (kept first (from n) k1.memory k2.memory k1.copy u k2.extends k1.reads),
                two_set s k1.copy k2.copy,
                k2.reads,
                view_set s k1.copy k2.copy u v,
              )
              e)))

  -- a struct with two fields to copy
  unfoldable pub struct_of_two : DeepCopies Array C Z
  struct_of_two = record {
    read = struct_of_two_read;
    deep_copy_into = struct_of_two_copy;
    stable = struct_of_two-IsStable;
    copies = struct_of_two-Copied;
  }

module _ {Array A B D U V W C Z : Type 0} (first : DeepCopies Array A U)
    (second : DeepCopies Array B V) (third : DeepCopies Array D W) (one : C → A) (two : C → B)
    (three : C → D) (set : C → A → B → D → C) (view : C → U → V → W → Z)
    (one_set : (c : C) (x : A) (y : B) (z : D) → one (set c x y z) ≡ x)
    (two_set : (c : C) (x : A) (y : B) (z : D) → two (set c x y z) ≡ y)
    (three_set : (c : C) (x : A) (y : B) (z : D) → three (set c x y z) ≡ z)
    (view_set : (c : C) (x : A) (y : B) (z : D) (u : U) (v : V) (w : W)
      → view (set c x y z) u v w ≡ view c u v w) where
  abbrev pub struct_of_three_read : Region → Memory Array → C → Option Z
  struct_of_three_read r m s = option_bind (first.read r m (one s)) (λ u.
      option_bind (second.read r m (two s))
        (λ v. option_bind (third.read r m (three s)) (λ w. some (view s u v w))))

  abbrev pub struct_of_three_copy : C → Program Array C
  struct_of_three_copy s = do
    x ← first.deep_copy_into (one s)
    y ← second.deep_copy_into (two s)
    z ← third.deep_copy_into (three s)
    pure (set s x y z)

  pub struct_of_three-IsStable : IsStable struct_of_three_read
  unfolding option_bind
  struct_of_three-IsStable r q m m' s t c h =
      let (u, r1, h1) = option_bind-some (first.read r m (one s)) _ t h in
      let (v, r2, h2) = option_bind-some (second.read r m (two s)) _ t h1 in
      let (w, r3, e) = option_bind-some (third.read r m (three s)) _ t h2 in
      rw
        (
          first.stable r q m m' (one s) u c r1,
          second.stable r q m m' (two s) v c r2,
          third.stable r q m m' (three s) w c r3,
        )
        e

  pub struct_of_three-Copied :
      (n : ℕ) (r : Region) (m : Memory Array) (s : C) (t : Z)
      → n ≤ length m
      → struct_of_three_read r m s ≡ some t
      → Copied struct_of_three_read n m (struct_of_three_copy s) t
  unfolding option_bind
  struct_of_three-Copied n r m s t l h =
      let (u, r1, h1) = option_bind-some (first.read r m (one s)) _ t h in
      let (v, r2, h2) = option_bind-some (second.read r m (two s)) _ t h1 in
      let (w, r3, e) = option_bind-some (third.read r m (three s)) _ t h2 in
      let k1 = first.copies n r m (one s) u l r1 in
      let l1 = Extends-length n m k1.memory l k1.extends in
      let k2 =
        second.copies n r k1.memory (two s) v l1
          (kept second r m k1.memory (two s) v k1.extends r2) in
      let l2 = Extends-length n k1.memory k2.memory l1 k2.extends in
      let k3 = third.copies n r k2.memory (three s) w l2 (
        kept third r k1.memory k2.memory (three s) w k2.extends
          (kept third r m k1.memory (three s) w k1.extends r3)) in
      Copied-bind first.read struct_of_three_read n m (first.deep_copy_into (one s)) _ u t k1 (
        Copied-bind second.read struct_of_three_read n k1.memory (second.deep_copy_into (two s)) _ v
          t k2
          (Copied-bind third.read struct_of_three_read n k2.memory (third.deep_copy_into (three s))
            _ w t k3
            (Copied-pure struct_of_three_read n k3.memory (set s k1.copy k2.copy k3.copy) t (
              rw
                (
                  one_set s k1.copy k2.copy k3.copy,
                  (kept first (from n) k2.memory k3.memory k1.copy u k3.extends
                      (kept first (from n) k1.memory k2.memory k1.copy u k2.extends k1.reads)),
                  two_set s k1.copy k2.copy k3.copy,
                  (kept second (from n) k2.memory k3.memory k2.copy v k3.extends k2.reads),
                  three_set s k1.copy k2.copy k3.copy,
                  k3.reads,
                  view_set s k1.copy k2.copy k3.copy u v w,
                )
                e))))

  -- a struct with three fields to copy
  unfoldable pub struct_of_three : DeepCopies Array C Z
  struct_of_three = record {
    read = struct_of_three_read;
    deep_copy_into = struct_of_three_copy;
    stable = struct_of_three-IsStable;
    copies = struct_of_three-Copied;
  }
