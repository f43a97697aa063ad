-- ===== src/Watch/Manager/Balance.antt =====
-- What one call of UpdateWatches starts and stops, against what the manager holds before and after.
use mathlib.Core.List.{Perm, append_assoc, perm_append_comm, perm_middle}
use mathlib.Core.List.Perm
use kpt_resource_group.Base.{
  ◌≡◌, refl, sym, false, Option, none, some, List, [], ◌∷◌, ◌++◌, IsDistinct, Bool-cases, inl, inr,
}
use kpt_resource_group.GoMap.{get, has, put, delete, keys}
use kpt_resource_group.GoMap.Laws.{put-IsDistinct, delete-IsDistinct}
use kpt_resource_group.GoMap.Values.{values, values-put, values-delete}
use kpt_resource_group.KeySet
use kpt_resource_group.Api.{GroupVersionKind, gvk_eq}
use kpt_resource_group.Watch.Manager.{
  Manager, Progress, GvkSet, stop_watcher, start_watcher, stop_obsolete, start_new, update_watches,
}

module _ {W : Type 0} where
  -- What UpdateWatches has so far, against the watchers that it began with.
  pub record Accounts (initial : List W) (p : Progress W) : Type 0 where
    pub distinct : IsDistinct (keys p.watchers)
    pub balanced : Perm (values p.watchers ++ p.stopped) (initial ++ p.started)

  -- an item at the end of the second list can stand first
  pub last_first : (xs ys : List W) (w : W) → Perm (xs ++ (ys ++ (w ∷ []))) (w ∷ (xs ++ ys))
  last_first xs ys w = rw (sym (append_assoc xs ys (w ∷ []))) (perm_append_comm (xs ++ ys) (w ∷ []))

  stop_watcher-Accounts :
      (initial : List W) (p : Progress W) (gvk : GroupVersionKind)
      → Accounts initial p
      → Accounts initial (stop_watcher p gvk)
  unfolding stop_watcher
  stop_watcher-Accounts initial p gvk a = stopped (get p.watchers gvk) refl
    where
      stopped :
          (o : Option W)
          → get p.watchers gvk ≡ o
          → Accounts initial (elim o [
            | none ↦ p
            | some w ↦ record p { watchers = delete p.watchers gvk; stopped = p.stopped ++ w ∷ [] }
          ])
      stopped none e = a
      stopped (some w) e = record {
        distinct = delete-IsDistinct p.watchers gvk a.distinct;
        balanced = Perm.trans (last_first (values (delete p.watchers gvk)) p.stopped w) (
            Perm.trans (Perm.append_right p.stopped (values-delete p.watchers gvk w a.distinct e))
              a.balanced);
      }

  module _ (create : GroupVersionKind → Option W) where
    start_watcher-Accounts :
        (initial : List W) (p : Progress W) (gvk : GroupVersionKind)
        → Accounts initial p
        → Accounts initial (start_watcher create p gvk)
    unfolding start_watcher
    start_watcher-Accounts initial p gvk a = elim (Bool-cases (has p.watchers gvk)) [
      | inl h ↦ rw h a
      | inr h ↦ rw h (started h (create gvk))
    ]
      where
        started :
            has p.watchers gvk ≡ false
            → (o : Option W)
            → Accounts initial (elim o [
              | none ↦ record p { errs = p.errs ++ gvk ∷ [] }
              | some w ↦ record p { watchers = put p.watchers gvk w; started = p.started ++ w ∷ [] }
            ])
        started h none = record { distinct = a.distinct; balanced = a.balanced }
        started h (some w) = record {
          distinct = put-IsDistinct p.watchers gvk w a.distinct;
          balanced =
              rw
                (values-put p.watchers gvk w h, append_assoc (values p.watchers) (w ∷ []) p.stopped)
                (Perm.trans (perm_middle (values p.watchers) p.stopped) (
                  Perm.trans (Perm.cons w a.balanced)
                    (Perm.symm (last_first initial p.started w))));
        }

    start_new-Accounts :
        (initial : List W) (gvks : List GroupVersionKind) (p : Progress W)
        → Accounts initial p
        → Accounts initial (start_new create p gvks)
    unfolding start_new
    start_new-Accounts initial [] p a = a
    start_new-Accounts initial (gvk ∷ gvks) p a = elim (Bool-cases (has p.watchers gvk)) [
      | inl h ↦ rw h (start_new-Accounts initial gvks p a)
      | inr h ↦ rw h (
          start_new-Accounts initial gvks (start_watcher create p gvk)
            (start_watcher-Accounts initial p gvk a))
    ]

  stop_obsolete-Accounts :
      (initial : List W) (wanted : GvkSet) (gvks : List GroupVersionKind) (p : Progress W)
      → Accounts initial p
      → Accounts initial (stop_obsolete wanted p gvks)
  unfolding stop_obsolete
  stop_obsolete-Accounts initial wanted [] p a = a
  stop_obsolete-Accounts initial wanted (gvk ∷ gvks) p a =
      elim (Bool-cases (KeySet.member wanted gvk)) [
        | inl h ↦ rw h (stop_obsolete-Accounts initial wanted gvks p a)
        | inr h ↦ rw h (
            stop_obsolete-Accounts initial wanted gvks (stop_watcher p gvk)
              (stop_watcher-Accounts initial p gvk a))
      ]

  -- One call: what the manager holds afterwards and what it stopped are what it held before and what it
  -- started.
  pub update_watches-Accounts :
      (create : GroupVersionKind → Option W) (m : Manager W) (wanted : GvkSet)
      → IsDistinct (keys m.watcher_map)
      → IsDistinct (keys (update_watches create m wanted).manager.watcher_map)
        × Perm
            (values (update_watches create m wanted).manager.watcher_map
              ++ (update_watches create m wanted).stopped)
            (values m.watcher_map ++ (update_watches create m wanted).started)
  unfolding update_watches
  update_watches-Accounts create m wanted d =
      let begun : Progress W = record {
        watchers = m.watcher_map;
        stopped = [];
        started = [];
        errs = [];
      } in
      let kept =
        stop_obsolete-Accounts (values m.watcher_map) wanted (keys m.watcher_map) begun
          (record { distinct = d; balanced = Perm.refl (values m.watcher_map ++ []) }) in
      let a = start_new-Accounts create (values m.watcher_map) (KeySet.to_slice wanted) _ kept in
      (a.distinct, a.balanced)
