-- ===== src/Controller/Resources/Shared.antt =====
-- setResStatus of resourcegroup_controller.go over a memory of arrays: the cached status is shared with the
-- resource map and its other readers, so the conditions are copied before one is appended.
use kpt_resource_group.Base.{
  ℕ, zero, suc, ◌+◌, ◌≡◌, refl, true, Option, none, some, List, [], ◌∷◌, ◌++◌, String, length,
  length-append, leb, ltb, arith, if◌then◌else◌, if_false,
}
use kpt_resource_group.Api.{Condition, ResourceStatus, Status, Time}
use kpt_resource_group.ResourceMap.{CachedStatus}
use kpt_resource_group.DeepCopy.{
  Window, Slice, Elements, Memory, Program, Extends, get_elem?, option_bind, load, load_elements,
  allocate, pure, ◌>>=◌, load-allocate, get_elem?-last, Extends-trans,
}
use kpt_resource_group.DeepCopy.Types.{ResourceStatusOf}
use kpt_resource_group.Controller.Resources.{set_res_status, ownership_condition}

module _ {ℓ} {A : Type ℓ} where
  unfoldable pub put_elem : List A → ℕ → A → List A
  put_elem [] n x = []
  put_elem (y ∷ ys) zero x = x ∷ ys
  put_elem (y ∷ ys) (suc n) x = y ∷ put_elem ys n x

-- A cached status in memory.
pub record CachedStatusOf (Conditions : Type 0) : Type 0 where
  pub status : Status
  pub conditions : Conditions
  pub source_hash : String
  pub inventory_id : String

module _ {Array : Type 0} (elements : Elements Array Condition) where
  -- the items of the array that a window lies in
  unfoldable pub array_items : Memory Array → Window → Option (List Condition)
  array_items m s = option_bind (get_elem? m s.address) elements.elements_of

  -- Go's append of one item: in place where the array goes on behind the window, and else in a new array.
  unfoldable pub append_one : Window → Condition → Program Array Window
  append_one s c m = option_bind (load elements m s) (λ cs. option_bind (array_items m s) (λ xs.
      if ltb (s.offset + s.len) (length xs)
      then some (
        record s { len = suc s.len },
        put_elem m s.address (elements.array_of (put_elem xs (s.offset + s.len) c)),
      )
      else allocate elements (cs ++ (c ∷ [])) m))

  -- the items of a slice, which are none if it is nil
  abbrev pub slice_items : Slice → Program Array (List Condition)
  slice_items none = pure []
  slice_items (some s) = load_elements elements s

  -- The condition is appended, if there is one.
  unfoldable pub append_option : Window → Option Condition → Program Array Window
  append_option s none = pure s
  append_option s (some c) = append_one s c

  -- func setResStatus
  unfoldable pub set_shared_status :
      Time
      → String
      → ResourceStatusOf Slice
      → CachedStatusOf Slice
      → Program Array (ResourceStatusOf Slice)
  set_shared_status now id res_status cached = do
    cs ← slice_items cached.conditions
    copied ← allocate elements cs
    conditions ← append_option copied (ownership_condition now id cached.inventory_id)
    pure (record res_status {
      status = cached.status;
      conditions = some conditions;
      source_hash = cached.source_hash;
    })

  -- what they read as, with their conditions
  abbrev pub status_with : ResourceStatusOf Slice → List Condition → ResourceStatus
  status_with s cs = record {
    obj_metadata = s.obj_metadata;
    status = s.status;
    source_hash = s.source_hash;
    conditions = cs;
    strategy = s.strategy;
    actuation = s.actuation;
    reconcile = s.reconcile;
  }

  abbrev pub cached_with : CachedStatusOf Slice → List Condition → CachedStatus
  cached_with c cs = record {
    status = c.status;
    conditions = cs;
    source_hash = c.source_hash;
    inventory_id = c.inventory_id;
  }

  array_items-allocate :
      (m : Memory Array) (xs : List Condition) (s : Window)
      → s.address ≡ length m
      → array_items (m ++ (elements.array_of xs ∷ [])) s ≡ some xs
  unfolding array_items option_bind
  array_items-allocate m xs s e =
      rw (e, get_elem?-last m (elements.array_of xs)) (elements.elements_of-array_of xs)

  -- the array that make gives has no room behind the slice
  append_one-allocate :
      (m : Memory Array) (xs : List Condition) (c : Condition)
      → append_one
          (record { address = length m; offset = 0; len = length xs })
          c
          (m ++ (elements.array_of xs ∷ []))
        ≡ allocate elements (xs ++ (c ∷ [])) (m ++ (elements.array_of xs ∷ []))
  unfolding append_one option_bind
  append_one-allocate m xs c =
      let s : Window = record { address = length m; offset = 0; len = length xs } in
      rw (load-allocate elements m xs, array_items-allocate m xs s refl)
        (if_false {b = ltb (0 + length xs) (length xs)} _ _ (ground arith))

  -- what one append, or none, makes of the array that make gives
  record IsAppended (m : Memory Array) (cs : List Condition) (o : Option Condition) : Type 0 where
    window : Window
    memory : Memory Array
    ends :
        append_option
          (record { address = length m; offset = 0; len = length cs })
          o
          (m ++ (elements.array_of cs ∷ []))
        ≡ some (window, memory)
    extends : Extends m memory
    apart : leb (length m) window.address ≡ true
    reads : load elements memory window ≡ some (elim o [ none ↦ cs | some c ↦ cs ++ (c ∷ []) ])

  append_option-IsAppended :
      (m : Memory Array) (cs : List Condition) (o : Option Condition) → IsAppended m cs o
  unfolding append_option allocate
  append_option-IsAppended m cs none = record {
    window = record { address = length m; offset = 0; len = length cs };
    memory = m ++ (elements.array_of cs ∷ []);
    ends = refl;
    extends = (elements.array_of cs ∷ [], refl);
    apart = ground arith;
    reads = load-allocate elements m cs;
  }
  append_option-IsAppended m cs (some c) =
      let m₁ : Memory Array = m ++ (elements.array_of cs ∷ []) in
      let last : Memory Array = elements.array_of (cs ++ (c ∷ [])) ∷ [] in
      record {
        window = record { address = length m₁; offset = 0; len = length (cs ++ (c ∷ [])) };
        memory = m₁ ++ last;
        ends = append_one-allocate m cs c;
        extends = Extends-trans m m₁ (m₁ ++ last) (elements.array_of cs ∷ [], refl) (last, refl);
        apart = ground (arith, length-append m (elements.array_of cs ∷ []));
        reads = load-allocate elements m₁ (cs ++ (c ∷ []));
      }

  -- The status that setResStatus leaves has its conditions in a new array, which reads as what the model by
  -- values gives.
  pub record IsSharedApart (now : Time) (id : String) (res_status : ResourceStatusOf Slice)
      (cached : CachedStatusOf Slice) (m : Memory Array) (value : ResourceStatus) : Type 0 where
    pub result : ResourceStatusOf Slice
    pub memory : Memory Array
    pub window : Window
    pub ends : set_shared_status now id res_status cached m ≡ some (result, memory)
    pub extends : Extends m memory
    pub conditions : result.conditions ≡ some window
    pub apart : leb (length m) window.address ≡ true
    pub reads : load elements memory window ≡ some value.conditions
    pub fields : status_with result value.conditions ≡ value

  -- setResStatus on a cached status that can be read ends well and changes no array, so no other reader
  -- of the cache sees a difference, and the status that it leaves, whose conditions are in an array
  -- of their own, reads as set_res_status says.
  pub set_shared_status_lem :
      (now : Time) (id : String) (res_status : ResourceStatusOf Slice)
      (cached : CachedStatusOf Slice) (m : Memory Array) (cs old : List Condition)
      → slice_items cached.conditions m ≡ some (cs, m)
      → IsSharedApart now id res_status cached m
          (set_res_status now id (status_with res_status old) (cached_with cached cs))
  unfolding set_shared_status set_res_status option_bind allocate
  set_shared_status_lem now id res_status cached m cs old h =
      let a = append_option-IsAppended m cs (ownership_condition now id cached.inventory_id) in
      record {
        result = record res_status {
          status = cached.status;
          conditions = some a.window;
          source_hash = cached.source_hash;
        };
        memory = a.memory;
        window = a.window;
        ends = rw (h, a.ends) refl;
        extends = a.extends;
        conditions = refl;
        apart = a.apart;
        reads = a.reads;
        fields = refl;
      }
