-- ===== src/DeepCopy/Independent.antt =====
-- A deep copy and its original: both read the same, and no write to one is seen through the other.
use kpt_resource_group.Base.{
  ℕ, ◌≡◌, refl, sym, ◌∙◌, ap, true, none, some, length, leb, arith, eq_of_some-eq,
}
use mathlib.Core.Path.{subst}
use kpt_resource_group.DeepCopy.{
  option_bind-some, Program, option_bind, everywhere, from, Memory, Slice, Extends, DeepCopies,
  get_elem?,
}
use kpt_resource_group.DeepCopy.Types.{
  Array, ResourceGroupCell, ResourceGroupView, ResourceGroupListOf, SliceView,
}
use kpt_resource_group.DeepCopy.Functions.{
  nil_object, list_object, deep_copy, resource_group_deep_copy_into, resource_group_deep_copy,
  resource_group_list_deep_copy, resource_group_list_deep_copy_object,
}
use kpt_resource_group.DeepCopy.Copies.{resource_group_copies, resource_group_list_copies}

module _ {Array C V : Type 0} (d : DeepCopies Array C V) where
  -- what the promise says of a value whose copy is at hand
  copied_apart :
      (m m₁ : Memory Array) (c c₁ : C) (v : V)
      → d.read everywhere m c ≡ some v
      → d.deep_copy_into c m ≡ some (c₁, m₁)
      → Extends m m₁ × (d.read (from (length m)) m₁ c₁ ≡ some v)
  copied_apart m m₁ c c₁ v h e =
      let k = d.copies (length m) everywhere m c v (omega arith) h in
      let same : (k.copy, k.memory) ≡ (c₁, m₁) = eq_of_some-eq (sym k.ends ∙ e) in
      subst (λ p. Extends m p.1 × (d.read (from (length m)) p.1 p.0 ≡ some v)) same
        (k.extends, k.reads)

-- the copy of a pointer that is not nil
deep_copy-some :
    {Array C : Type 0} (f : C → Program Array C) (m m₁ : Memory Array) (c c₁ : C)
    → deep_copy f (some c) m ≡ some (some c₁, m₁)
    → f c m ≡ some (c₁, m₁)
unfolding deep_copy
deep_copy-some {Array} {C} f m m₁ c c₁ h =
    let (r, hr, e) =
      option_bind-some (f c m) (λ (r : C × Memory Array). some (some r.0, r.1)) (some c₁, m₁) h in
    let same = eq_of_some-eq e in
    hr ∙ ap some (λ i. (eq_of_some-eq (ap (λ p. p.0) same) i, (same i).1))

module _ {Block ObjectMeta ObjectView : Type 0}
    (meta : DeepCopies (Array Block ObjectMeta) ObjectMeta ObjectView) where
  -- Of a group that can be read and its deep copy: however the arrays change that were there before
  -- the copy, by writes or by more arrays, the copy reads as the group did then; and however the
  -- arrays change that came with the copy, the group reads as before.
  pub resource_group_deep_copy_apart :
      (m m₁ changed written : Memory (Array Block ObjectMeta)) (g g₁ : ResourceGroupCell ObjectMeta)
      (v : ResourceGroupView ObjectView)
      → (resource_group_copies meta).read everywhere m g ≡ some v
      → resource_group_deep_copy meta.deep_copy_into (some g) m ≡ some (some g₁, m₁)
      → ((a : ℕ) (x : Array Block ObjectMeta)
          → leb (length m) a ≡ true
          → get_elem? m₁ a ≡ some x
          → get_elem? changed a ≡ some x)
      → ((a : ℕ) (x : Array Block ObjectMeta)
          → get_elem? m a ≡ some x
          → get_elem? written a ≡ some x)
      → ((resource_group_copies meta).read everywhere changed g₁ ≡ some v)
        × ((resource_group_copies meta).read everywhere written g ≡ some v)
  unfolding resource_group_deep_copy deep_copy resource_group_copies option_bind
  resource_group_deep_copy_apart m m₁ changed written g g₁ v h e new old =
      let d = resource_group_copies meta in
      let (extends, reads) =
        copied_apart d m m₁ g g₁ v h
          (deep_copy-some (resource_group_deep_copy_into meta.deep_copy_into) m m₁ g g₁ e) in
      (
        d.stable (from (length m)) everywhere m₁ changed g₁ v (λ a x r k. (refl, new a x r k))
            reads,
        d.stable everywhere everywhere m written g v (λ a x r k. (refl, old a x k)) h,
      )

  module _ {ListMeta ListView : Type 0}
      (list_meta : DeepCopies (Array Block ObjectMeta) ListMeta ListView) where
    -- DeepCopyObject of a list that can be read runs without a fault, to a new list that reads the
    -- same out of arrays that were not there before, and no array that was there changes; of a nil
    -- pointer it is the nil object.
    pub resource_group_list_deep_copy_object_lem :
        (m : Memory (Array Block ObjectMeta)) (l : ResourceGroupListOf ListMeta Slice)
        (v : ResourceGroupListOf ListView (SliceView (ResourceGroupView ObjectView)))
        → (resource_group_list_copies meta list_meta).read everywhere m l ≡ some v
        → ((c : ResourceGroupListOf ListMeta Slice) × (m₁ : Memory (Array Block ObjectMeta))
            × (resource_group_list_deep_copy_object meta.deep_copy_into list_meta.deep_copy_into
                  (some l)
                  m
                ≡ some (list_object c, m₁))
            × Extends m m₁
            × ((resource_group_list_copies meta list_meta).read (from (length m)) m₁ c ≡ some v))
          × (resource_group_list_deep_copy_object meta.deep_copy_into list_meta.deep_copy_into none
                m
              ≡ some (nil_object, m))
    unfolding resource_group_list_deep_copy_object resource_group_list_deep_copy deep_copy
        resource_group_list_copies option_bind
    resource_group_list_deep_copy_object_lem m l v h =
        let d = resource_group_list_copies meta list_meta in
        let k = d.copies (length m) everywhere m l v (omega arith) h in
        ((k.copy, k.memory, rw k.ends refl, k.extends, k.reads), refl)
