-- ===== src/Watch/Manager/Targets.antt =====
-- What UpdateWatches leaves watched, stated for each type on its own.
use kpt_resource_group.Base.{
  ◌≡◌, refl, ◌∙◌, ◌↔◌, true, false, not, ◌&&◌, ◌||◌, Option, none, some, List, [], ◌∷◌, arith,
  if◌then◌else◌, ◌==◌, contains, is_some, ==_refl, contains-append, Option-cases, inl, inr,
}
use kpt_resource_group.GoMap.{get, has, keys}
use kpt_resource_group.GoMap.Laws.{get-put, get-delete, contains-keys}
use kpt_resource_group.KeySet
use kpt_resource_group.Api.{GroupVersionKind, gvk_eq}
use kpt_resource_group.Watch.Manager.{
  Manager, Progress, Updated, GvkSet, stop_watcher, stop_obsolete, start_watcher, start_new,
  update_watches, is_watched,
}

module _ {W : Type 0} (wanted : GvkSet) where
  get-stop_one :
      (p : Progress W) (g k : GroupVersionKind)
      → get (if KeySet.member wanted g then p else stop_watcher p g).watchers k
        ≡ (if g == k && not (KeySet.member wanted g) then none else get p.watchers k)
  unfolding stop_watcher
  get-stop_one p g k = ground (arith, gvk_eq.equals_iff g k, get-delete p.watchers g k)

  get-stop_obsolete :
      (gs : List GroupVersionKind) (p : Progress W) (k : GroupVersionKind)
      → get (stop_obsolete wanted p gs).watchers k
        ≡ (if contains gs k && not (KeySet.member wanted k) then none else get p.watchers k)
  unfolding stop_obsolete contains
  get-stop_obsolete [] p k = refl
  get-stop_obsolete (g ∷ gs) p k =
      get-stop_obsolete gs (if KeySet.member wanted g then p else stop_watcher p g) k
      ∙ ground (arith, gvk_eq.equals_iff g k, get-stop_one p g k)

  errs-stop_obsolete :
      (gs : List GroupVersionKind) (p : Progress W) → (stop_obsolete wanted p gs).errs ≡ p.errs
  unfolding stop_obsolete stop_watcher
  errs-stop_obsolete [] p = refl
  errs-stop_obsolete (g ∷ gs) p =
      errs-stop_obsolete gs (if KeySet.member wanted g then p else stop_watcher p g) ∙ ground arith

-- errs[0]
abbrev first : List GroupVersionKind → Option GroupVersionKind
first es = elim es [ [] ↦ none | e ∷ es ↦ some e ]

first-none :
    (es : List GroupVersionKind) (k : GroupVersionKind) → first es ≡ none → contains es k ≡ false
unfolding contains
first-none [] k h = refl
first-none (e ∷ es) k h = cc

none-first :
    (es : List GroupVersionKind)
    → ((k : GroupVersionKind) → contains es k ≡ false)
    → first es ≡ none
unfolding contains
none-first [] h = refl
none-first (e ∷ es) h = ground (arith, h e, ==_refl e)

module _ {W : Type 0} (create : GroupVersionKind → Option W) where
  abbrev or_created : Option W → Option W → Option W
  or_created (some w) o = some w
  or_created none o = o

  abbrev start_one : Progress W → GroupVersionKind → Progress W
  start_one p g = if has p.watchers g then p else start_watcher create p g

  get-start_one :
      (p : Progress W) (g k : GroupVersionKind)
      → get (start_one p g).watchers k
        ≡ or_created (get p.watchers k) (if g == k then create k else none)
  unfolding start_watcher
  get-start_one p g k = elim (Option-cases (create g)) [
    | inl e ↦ ground (arith, e, gvk_eq.equals_iff g k)
    | inr (w, e) ↦ ground (arith, e, gvk_eq.equals_iff g k, get-put p.watchers g w k)
  ]

  get-start_new :
      (gs : List GroupVersionKind) (p : Progress W) (k : GroupVersionKind)
      → get (start_new create p gs).watchers k
        ≡ or_created (get p.watchers k) (if contains gs k then create k else none)
  unfolding start_new contains
  get-start_new [] p k = ground arith
  get-start_new (g ∷ gs) p k =
      get-start_new gs (start_one p g) k
      ∙ ground (arith, gvk_eq.equals_iff g k, get-start_one p g k)

  errs-start_one :
      (p : Progress W) (g k : GroupVersionKind)
      → contains (start_one p g).errs k
        ≡ (contains p.errs k || g == k && not (has p.watchers k) && not (is_some (create k)))
  unfolding start_watcher contains
  errs-start_one p g k = elim (Option-cases (create g)) [
    | inl e ↦ ground (arith, e, gvk_eq.equals_iff g k, contains-append p.errs (g ∷ []) k)
    | inr (w, e) ↦ ground (arith, e, gvk_eq.equals_iff g k)
  ]

  errs-start_new :
      (gs : List GroupVersionKind) (p : Progress W) (k : GroupVersionKind)
      → contains (start_new create p gs).errs k
        ≡ (contains p.errs k || contains gs k && not (has p.watchers k) && not (is_some (create k)))
  unfolding start_new contains
  errs-start_new [] p k = ground arith
  errs-start_new (g ∷ gs) p k =
      errs-start_new gs (start_one p g) k
      ∙ ground (arith, gvk_eq.equals_iff g k, errs-start_one p g k, get-start_one p g k)

  module _ (m : Manager W) (wanted : GvkSet) where
    abbrev updated : Updated W
    updated = update_watches create m wanted

    abbrev begun : Progress W
    begun = record { watchers = m.watcher_map; stopped = []; started = []; errs = [] }

    -- After UpdateWatches the types that are watched are those of the argument, and a type that was
    -- watched before keeps its watcher, and any other has the new one if it could be created.
    pub get-update_watches :
        (k : GroupVersionKind)
        → get updated.manager.watcher_map k
          ≡ (if KeySet.member wanted k then or_created (get m.watcher_map k) (create k) else none)
    unfolding update_watches
    get-update_watches k =
        get-start_new (KeySet.to_slice wanted) _ k
        ∙ ground (
          arith,
          get-stop_obsolete wanted (keys m.watcher_map) begun k,
          contains-keys m.watcher_map k,
          KeySet.contains-to_slice wanted k,
        )

    abbrev failed : List GroupVersionKind
    failed =
        (start_new create (stop_obsolete wanted begun (keys m.watcher_map))
          (KeySet.to_slice wanted)).errs

    contains-failed :
        (k : GroupVersionKind)
        → contains failed k
          ≡ (KeySet.member wanted k && not (is_some (get updated.manager.watcher_map k)))
    unfolding contains
    contains-failed k =
        errs-start_new (KeySet.to_slice wanted) _ k
        ∙ ground (
          arith,
          errs-stop_obsolete wanted (keys m.watcher_map) begun,
          get-stop_obsolete wanted (keys m.watcher_map) begun k,
          get-update_watches k,
          contains-keys m.watcher_map k,
          KeySet.contains-to_slice wanted k,
        )

    -- UpdateWatches returns no error exactly if every type of the argument is watched afterwards.
    pub update_watches-err_iff : (updated.err ≡ none) ↔ (
        (k : GroupVersionKind)
        → KeySet.member wanted k ≡ true
        → is_watched updated.manager k ≡ true)
    unfolding update_watches is_watched
    update_watches-err_iff = (
      λ h k w. ground (arith, first-none failed k h, contains-failed k),
      λ h. none-first failed (λ k. ground (arith, h k, contains-failed k)),
    )
