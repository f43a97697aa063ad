-- ===== src/Watch/Manager/Account.antt =====
-- Every watcher that was started is accounted for: the manager holds it, has stopped it, or has dropped it.
use mathlib.Core.List.{Perm, append_assoc, perm_append_comm, append-nil}
use mathlib.Core.List.Perm
use kpt_resource_group.Base.{
  ◌≡◌, refl, sym, Bool, true, false, Option, none, some, List, [], ◌∷◌, ◌++◌, IsDistinct, arith,
}
use kpt_resource_group.GoMap.{get, delete, keys}
use kpt_resource_group.GoMap.Laws.{delete-IsDistinct}
use kpt_resource_group.GoMap.Values.{values, values-delete, delete_absent}
use kpt_resource_group.Api.{GroupVersionKind, gvk_eq}
use kpt_resource_group.Watch.Manager.{
  Manager, GvkSet, update_watches, new_manager, run_watcher_returned,
}
use kpt_resource_group.Watch.Manager.Balance.{last_first, update_watches-Accounts}

-- A manager, and all that it ever started, stopped, and dropped because Run returned an error.
pub record Account (W : Type 0) : Type 0 where
  pub manager : Manager W
  pub started : List W
  pub stopped : List W
  pub dropped : List W

-- UpdateWatches is called, with a createWatcherFunc of its own since that may fail at one time only, or
-- Run returns in a goroutine for a type, with an error or without.
pub data Change (W : Type 0) : Type 0 where
  updates : (GroupVersionKind → Option W) → GvkSet → Change W
  returns : GroupVersionKind → Bool → Change W

module _ {W : Type 0} where
  -- what the return of a watcher takes from the map
  abbrev taken : Option W → Bool → List W
  taken none failed = []
  taken (some w) false = []
  taken (some w) true = w ∷ []

  unfoldable pub account : Account W → Change W → Account W
  account a (updates create wanted) =
      let u = update_watches create a.manager wanted in
      record a {
        manager = u.manager;
        started = a.started ++ u.started;
        stopped = a.stopped ++ u.stopped;
      }
  account a (returns gvk failed) = record a {
    manager = run_watcher_returned a.manager gvk failed;
    dropped = a.dropped ++ taken (get a.manager.watcher_map gvk) failed;
  }

  unfoldable pub run_changes : Account W → List (Change W) → Account W
  run_changes a [] = a
  run_changes a (e ∷ es) = run_changes (account a e) es

  abbrev pub IsBalanced : Account W → Type 0
  IsBalanced a =
      IsDistinct (keys a.manager.watcher_map)
      × Perm (values a.manager.watcher_map ++ (a.stopped ++ a.dropped)) a.started

  -- lists that change places behind the first
  swap_last : (xs ys zs : List W) → Perm (xs ++ (ys ++ zs)) ((xs ++ zs) ++ ys)
  swap_last xs ys zs = rw (append_assoc xs zs ys) (Perm.append_left xs (perm_append_comm ys zs))

  -- the second of four lists goes to the end
  second_last : (xs ss us ds : List W) → Perm (xs ++ ((ss ++ us) ++ ds)) ((xs ++ us) ++ (ss ++ ds))
  second_last xs ss us ds =
      Perm.trans (Perm.append_left xs (Perm.append_right ds (perm_append_comm ss us))) (
        rw (append_assoc us ss ds, append_assoc xs us (ss ++ ds))
          (Perm.refl (xs ++ (us ++ (ss ++ ds)))))

  updates-IsBalanced :
      (create : GroupVersionKind → Option W) (wanted : GvkSet) (a : Account W)
      → IsBalanced a
      → IsBalanced (account a (updates create wanted))
  unfolding account
  updates-IsBalanced create wanted a b =
      let u = update_watches create a.manager wanted in
      let (d, p) = update_watches-Accounts create a.manager wanted b.0 in
      let held = values a.manager.watcher_map in
      let gone = a.stopped ++ a.dropped in
      let before : Perm (values u.manager.watcher_map ++ ((a.stopped ++ u.stopped) ++ a.dropped))
          ((held ++ u.started) ++ gone) =
        Perm.trans (second_last (values u.manager.watcher_map) a.stopped u.stopped a.dropped)
          (Perm.append_right gone p) in
      let after : Perm ((held ++ u.started) ++ gone) (a.started ++ u.started) =
        Perm.trans (Perm.symm (swap_last held gone u.started))
          (rw (sym (append_assoc held gone u.started)) (Perm.append_right u.started b.1)) in
      (d, Perm.trans before after)

  -- the entry of the type leaves the map, if there is one
  returned_fields :
      (m : Manager W) (stopped dropped started : List W) (gvk : GroupVersionKind) (failed : Bool)
      (o : Option W)
      → get m.watcher_map gvk ≡ o
      → IsDistinct (keys m.watcher_map)
      → Perm (values m.watcher_map ++ (stopped ++ dropped)) started
      → IsDistinct (keys (run_watcher_returned m gvk failed).watcher_map)
        × Perm
            (values (run_watcher_returned m gvk failed).watcher_map
              ++ (stopped ++ (dropped ++ taken o failed)))
            started
  unfolding run_watcher_returned
  returned_fields m stopped dropped started gvk false none e d p = (d, rw (append-nil dropped) p)
  returned_fields m stopped dropped started gvk false (some w) e d p =
      (d, rw (append-nil dropped) p)
  returned_fields m stopped dropped started gvk true none e d p = (
    delete-IsDistinct m.watcher_map gvk d,
    rw (append-nil dropped, delete_absent m.watcher_map gvk (ground (arith, e))) p,
  )
  returned_fields m stopped dropped started gvk true (some w) e d p = (
    delete-IsDistinct m.watcher_map gvk d,
    Perm.trans
        (rw (sym (append_assoc stopped dropped (w ∷ [])))
          (last_first (values (delete m.watcher_map gvk)) (stopped ++ dropped) w))
        (Perm.trans (Perm.append_right (stopped ++ dropped) (values-delete m.watcher_map gvk w d e))
          p),
  )

  pub account-IsBalanced : (a : Account W) (e : Change W) → IsBalanced a → IsBalanced (account a e)
  unfolding account
  account-IsBalanced a (updates create wanted) b = updates-IsBalanced create wanted a b
  account-IsBalanced a (returns gvk failed) b =
      returned_fields a.manager a.stopped a.dropped a.started gvk failed
        (get a.manager.watcher_map gvk) refl b.0 b.1

  run_changes-IsBalanced :
      (es : List (Change W)) (a : Account W) → IsBalanced a → IsBalanced (run_changes a es)
  unfolding run_changes
  run_changes-IsBalanced [] a b = b
  run_changes-IsBalanced (e ∷ es) a b =
      run_changes-IsBalanced es (account a e) (account-IsBalanced a e b)

  unfoldable pub new_account : Account W
  new_account = record { manager = new_manager; started = []; stopped = []; dropped = [] }

  -- In any history from a new manager of calls of UpdateWatches and of watchers whose Run returns, every
  -- watcher that was started is either held by the manager, or was stopped, or was dropped by the error of
  -- a watcher of its type, each just once, and no other watcher is held, was stopped or was dropped.
  pub run_changes_accounted :
      (es : List (Change W))
      → let a = run_changes new_account es in
        Perm (values a.manager.watcher_map ++ (a.stopped ++ a.dropped)) a.started
  unfolding new_manager new_account
  run_changes_accounted es = (run_changes-IsBalanced es new_account (tt, Perm.refl [])).1
