-- ===== src/Controller/Compute/Reference.antt =====
-- What computeStatus returns, without a cache that changes on the way: each status on its own, from
-- the cache as the call finds it and from the API server.
use std.Path.{fun_ext}
use kpt_resource_group.Base.{
  ◌≡◌, refl, sym, ap, ◌∙◌, Bool, true, false, ◌||◌, Option, none, some, List, [], ◌∷◌, String,
  arith, map, Option-cases, Bool-cases, inl, inr, ◌==◌, eq_of_==,
}
use kpt_resource_group.GoMap.{Map, get}
use kpt_resource_group.Api.{
  NamespacedName, GroupKind, GroupVersionKind, ObjMetadata, Time, ResourceStatus, gk, gk_eq,
  meta_eq, not_found,
}
use kpt_resource_group.ResourceMap.{ResourceMap, CachedStatus, get_status, set_status}
use kpt_resource_group.ResourceMap.Queries.{get_status-set_status}
use kpt_resource_group.Status.{Objects, compute_status}
use kpt_resource_group.Controller.Resources.{set_res_status}
use kpt_resource_group.Controller.Compute.{
  Fetched, found, failure, overlay, is_error, read_status, store_fetched, resource_status,
  compute_loop, compute_resource_list, fresh_status, error_status, resource_status_map,
}

-- the loop's test over a list
abbrev pub some_error : List ResourceStatus → Bool
some_error [] = false
some_error (s ∷ ss) = is_error s || some_error ss

module _ (objects : Objects) (fetch : GroupVersionKind → NamespacedName → Fetched objects.Object)
    (types : Map GroupKind GroupVersionKind) (now : Time) (id : String) where
  -- what the API server answers for a resource: a status that can be cached, or just a status
  abbrev answer : ObjMetadata → Option (Fetched objects.Object)
  answer res = elim (get types (gk res)) [
    | none ↦ none
    | some gvk ↦ some (fetch gvk (record { namespace = res.namespace; name = res.name }))
  ]

  abbrev of_answer : ObjMetadata → Option (Fetched objects.Object) → ResourceStatus
  of_answer res none = record (fresh_status res) { status = not_found }
  of_answer res (some (failure e)) = record (fresh_status res) { status = error_status e }
  of_answer res (some (found obj)) =
      set_res_status now id (fresh_status res) (compute_status objects now obj)

  abbrev of_cache : ObjMetadata → Option CachedStatus → ResourceStatus
  of_cache res none = of_answer res (answer res)
  of_cache res (some cached) = set_res_status now id (fresh_status res) cached

  -- The status of one resource by itself.
  unfoldable pub reference_status : ResourceMap → ObjMetadata → ResourceStatus
  reference_status m res = of_cache res (get_status m res)

  stored_status :
      (m : ResourceMap) (res : ObjMetadata) (f : Fetched objects.Object)
      → (store_fetched objects fetch types now id m res f).0 ≡ of_answer res (some f)
  unfolding store_fetched
  stored_status m res (failure e) = refl
  stored_status m res (found obj) = refl

  read_status-eq :
      (m : ResourceMap) (res : ObjMetadata)
      → (read_status objects fetch types now id m res).0 ≡ of_answer res (answer res)
  unfolding read_status
  read_status-eq m res = elim (Option-cases (get types (gk res))) [
    | inl e ↦ rw (e, read_status, answer)
    | inr (gvk, e) ↦ rw (e, read_status, answer) (stored_status m res (fetch gvk _))
  ]

  resource_status-eq :
      (m : ResourceMap) (res : ObjMetadata)
      → (resource_status objects fetch types now id m res).0 ≡ reference_status m res
  unfolding resource_status reference_status
  resource_status-eq m res = elim (Option-cases (get_status m res)) [
    | inl e ↦ rw (e, resource_status) (read_status-eq m res)
    | inr (c, e) ↦ rw (e, resource_status)
  ]

  -- A status that was computed from the answer can stand in the cache for it.
  stored_keeps :
      (m : ResourceMap) (res q : ObjMetadata) (f : Fetched objects.Object)
      → get_status m res ≡ none
      → answer res ≡ some f
      → reference_status (store_fetched objects fetch types now id m res f).1 q
        ≡ reference_status m q
  unfolding store_fetched reference_status
  stored_keeps m res q (failure e) n a = refl
  stored_keeps m res q (found obj) n a = elim (Bool-cases (res == q)) [
    | inl h ↦
        let e = eq_of_== res q h in
        ap (of_cache q) (stored_there h)
        ∙ sym (
            ap (λ r. of_cache r (get_status m r)) (sym e)
            ∙ (ap (of_cache res) n
                ∙ (ap (of_answer res) a
                    ∙ ap
                        (λ r.
                          set_res_status now id (fresh_status r) (compute_status objects now obj))
                        e)))
    | inr h ↦ ap (of_cache q) (kept_there h)
  ]
    where
      c : Option CachedStatus
      c = some (compute_status objects now obj)

      stored_there : (res == q) ≡ true → get_status (set_status m res c) q ≡ c
      stored_there h = ground (arith, get_status-set_status m res q c, h)

      kept_there : (res == q) ≡ false → get_status (set_status m res c) q ≡ get_status m q
      kept_there h = ground (arith, get_status-set_status m res q c, h)

  read_keeps :
      (m : ResourceMap) (res q : ObjMetadata)
      → get_status m res ≡ none
      → reference_status (read_status objects fetch types now id m res).1 q ≡ reference_status m q
  unfolding read_status
  read_keeps m res q n = elim (Option-cases (get types (gk res))) [
    | inl e ↦ rw (e, read_status)
    | inr (gvk, e) ↦ rw (e, read_status) (stored_keeps m res q (fetch gvk _) n (rw (e, answer)))
  ]

  -- After the step every resource still has the status that it had by itself.
  resource_status-keeps :
      (m : ResourceMap) (res q : ObjMetadata)
      → reference_status (resource_status objects fetch types now id m res).1 q
        ≡ reference_status m q
  unfolding resource_status
  resource_status-keeps m res q = elim (Option-cases (get_status m res)) [
    | inl e ↦ rw (e, resource_status) (read_keeps m res q e)
    | inr (c, e) ↦ rw (e, resource_status)
  ]

  loop_statuses :
      (actuations : Map ObjMetadata ResourceStatus) (metas : List ObjMetadata) (m : ResourceMap)
      → (compute_loop objects fetch types now id actuations m metas).statuses
        ≡ map (λ r. overlay actuations (reference_status m r)) metas
  unfolding compute_loop
  loop_statuses actuations [] m = refl
  loop_statuses actuations (res ∷ metas) m =
      let m' = (resource_status objects fetch types now id m res).1 in
      ap
        (λ s.
          overlay actuations s
          ∷ (compute_loop objects fetch types now id actuations m' metas).statuses)
        (resource_status-eq m res)
      ∙ ap (λ ss. overlay actuations (reference_status m res) ∷ ss)
          (loop_statuses actuations metas m'
            ∙ ap (λ f. map (λ r. overlay actuations (f r)) metas)
                (fun_ext (resource_status-keeps m res)))

  loop_err :
      (actuations : Map ObjMetadata ResourceStatus) (metas : List ObjMetadata) (m : ResourceMap)
      → (compute_loop objects fetch types now id actuations m metas).has_err
        ≡ some_error (map (reference_status m) metas)
  unfolding compute_loop
  loop_err actuations [] m = refl
  loop_err actuations (res ∷ metas) m =
      let m' = (resource_status objects fetch types now id m res).1 in
      ap (λ s. is_error s || (compute_loop objects fetch types now id actuations m' metas).has_err)
        (resource_status-eq m res)
      ∙ ap (λ b. is_error (reference_status m res) || b)
          (loop_err actuations metas m'
            ∙ ap (λ f. some_error (map f metas)) (fun_ext (resource_status-keeps m res)))

  -- The loop leaves to every resource the status that it has by itself.
  loop_keeps :
      (actuations : Map ObjMetadata ResourceStatus) (metas : List ObjMetadata) (m : ResourceMap)
      (q : ObjMetadata)
      → reference_status (compute_loop objects fetch types now id actuations m metas).resource_map q
        ≡ reference_status m q
  unfolding compute_loop
  loop_keeps actuations [] m q = refl
  loop_keeps actuations (res ∷ metas) m q =
      loop_keeps actuations metas (resource_status objects fetch types now id m res).1 q
      ∙ resource_status-keeps m res q

  pub compute_resource_list-keeps :
      (existing : List ResourceStatus) (m : ResourceMap) (metas : List ObjMetadata)
      (q : ObjMetadata)
      → reference_status
          (compute_resource_list objects fetch types now id existing m metas).resource_map
          q
        ≡ reference_status m q
  unfolding compute_resource_list
  compute_resource_list-keeps existing m metas q =
      loop_keeps (resource_status_map existing) metas m q

  -- computeStatus computes what a pass without writes to the cache on the way would: each resource
  -- has the status that the cache at the call, or else the API server, gives it by itself, under
  -- the overlay of the actuation fields, and an error is reported just when one of these statuses
  -- is one before the overlay.
  pub compute_resource_list-reference :
      (existing : List ResourceStatus) (m : ResourceMap) (metas : List ObjMetadata)
      → ((compute_resource_list objects fetch types now id existing m metas).statuses
          ≡ map (λ r. overlay (resource_status_map existing) (reference_status m r)) metas)
        × ((compute_resource_list objects fetch types now id existing m metas).has_err
            ≡ some_error (map (reference_status m) metas))
  unfolding compute_resource_list
  compute_resource_list-reference existing m metas = (
    loop_statuses (resource_status_map existing) metas m,
    loop_err (resource_status_map existing) metas m,
  )
