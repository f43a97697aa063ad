-- ===== src/System.antt =====
-- The resource map that all parts share, in steps as fine as its lock: Reconcile in two steps, since it
-- reads the old set of its group before it takes the lock, and SetStatus. The watches, the handler of
-- CustomResourceDefinitions and the ResourceGroup controller write to the map by SetStatus only, each
-- when it gets to it and with whatever status it found, and reading needs no step. Only the root
-- controller calls Reconcile, for one request at a time, which is what its library does by default.
pub mod Flow
pub mod Queue
pub mod Server
pub mod Tests
use mathlib.Core.Path.{subst}
use kpt_resource_group.Base.{◌≡◌, refl, sym, eq_of_some-eq, ◌∙◌, Bool, Option, none, some, List}
use kpt_resource_group.Api.{NamespacedName, GroupKind, ObjMetadata, Time}
use kpt_resource_group.ResourceMap.{
  ResourceMap, CachedStatus, Reconciled, new_resource_map, update_locked, reconcile, set_status,
  diff_resources, old_resources,
}
use kpt_resource_group.ResourceMap.Links.{IsConsistent}
use kpt_resource_group.ResourceMap.Groups.{Reconciles, reconcile-Reconciles, requested}
use kpt_resource_group.ResourceMap.Kinds.{ListsKinds, reconcile-ListsKinds}
use kpt_resource_group.ResourceMap.History.{new_resource_map-Stores}
use kpt_resource_group.ResourceMap.Queries.{set_status-IsConsistent}
use kpt_resource_group.Status.{Objects}
use kpt_resource_group.Handler.Events.{enqueue_crd_event}
use kpt_resource_group.Handler.Events.Definitions.{enqueue_crd_event-keeps}
use kpt_resource_group.Watch.Filtered.{ErrorTracker, Event, ErrorsApi, handle}
use kpt_resource_group.Watch.Filtered.Events.{handle-keeps}

-- A call of Reconcile that waits for the lock: its arguments, and the difference that it computed.
pub record Pending : Type 0 where
  pub group : NamespacedName
  pub given : List ObjMetadata
  pub delete_rg : Bool
  pub diff : List ObjMetadata × List ObjMetadata

-- The part of Reconcile before the lock.
abbrev pub begin_reconcile : ResourceMap → NamespacedName → List ObjMetadata → Bool → Pending
begin_reconcile m group given delete_rg = record {
  group = group;
  given = given;
  delete_rg = delete_rg;
  diff = diff_resources (old_resources m group) (requested given delete_rg);
}

-- The part under the lock.
abbrev pub end_reconcile : ResourceMap → Pending → Option Reconciled
end_reconcile m q = update_locked m q.group (requested q.given q.delete_rg) q.delete_rg q.diff

-- The states of the map that the program can reach, each with the call of Reconcile that waits.
pub data IsReachable : ResourceMap → Option Pending → Type 0 where
  starts : IsReachable new_resource_map none
  begins :
      (m : ResourceMap) (group : NamespacedName) (given : List ObjMetadata) (delete_rg : Bool)
      → IsReachable m none
      → IsReachable m (some (begin_reconcile m group given delete_rg))
  ends :
      (m : ResourceMap) (q : Pending) (out : Reconciled)
      → IsReachable m (some q)
      → end_reconcile m q ≡ some out
      → IsReachable out.resource_map none
  sets :
      (m : ResourceMap) (p : Option Pending) (r : ObjMetadata) (s : Option CachedStatus)
      → IsReachable m p
      → IsReachable (set_status m r s) p

-- An event of a watch, and one of a CustomResourceDefinition, that nothing interrupts make such steps only.
handle-IsReachable :
    (objects : Objects) (errors : ErrorsApi) (now : Time) (t : ErrorTracker) (m : ResourceMap)
    (p : Option Pending) (e : Event objects.Object errors.Err)
    → IsReachable m p
    → IsReachable
        (handle objects errors now
          (record { error_tracker = t; resource_map = m })
          e).watcher.resource_map
        p
handle-IsReachable objects errors now t m p e v =
    handle-keeps objects errors now (record { error_tracker = t; resource_map = m })
      (λ m'. IsReachable m' p) (λ m' r s. sets m' p r s) e v

enqueue_crd_event-IsReachable :
    (m : ResourceMap) (p : Option Pending) (crd : Option GroupKind)
    → IsReachable m p
    → IsReachable (enqueue_crd_event m crd).0 p
enqueue_crd_event-IsReachable m p crd v =
    enqueue_crd_event-keeps (λ m'. IsReachable m' p) (λ m' r s. sets m' p r s) m crd v

-- The difference that a waiting call has computed is the one that it would compute now.
abbrev IsCurrent : ResourceMap → Option Pending → Type 0
IsCurrent m none = Unit {0}
IsCurrent m (some q) =
    q.diff ≡ diff_resources (old_resources m q.group) (requested q.given q.delete_rg)

set_status-IsCurrent :
    (m : ResourceMap) (p : Option Pending) (r : ObjMetadata) (s : Option CachedStatus)
    → IsCurrent m p
    → IsCurrent (set_status m r s) p
unfolding set_status old_resources
set_status-IsCurrent m none r s c = tt
set_status-IsCurrent m (some q) r s c = c

end_reconcile-eq :
    (m : ResourceMap) (q : Pending)
    → IsCurrent m (some q)
    → end_reconcile m q ≡ reconcile m q.group q.given q.delete_rg
unfolding reconcile
end_reconcile-eq m q c = rw c refl

end_reconcile-Reconciles :
    (m : ResourceMap) (q : Pending)
    → IsConsistent m
    → IsCurrent m (some q)
    → (out : Reconciled) × (end_reconcile m q ≡ some out)
      × Reconciles q.group q.given q.delete_rg m out
      × ListsKinds out
end_reconcile-Reconciles m q v c =
    let (out, e, w) = reconcile-Reconciles q.group q.given q.delete_rg m v in
    (out, end_reconcile-eq m q c ∙ e, w, reconcile-ListsKinds m q.group q.given q.delete_rg out e)

reachable-IsCurrent :
    (m : ResourceMap) (p : Option Pending) → IsReachable m p → IsConsistent m × IsCurrent m p
reachable-IsCurrent m p starts = (new_resource_map-Stores.consistent, tt)
reachable-IsCurrent m p (begins m' group given delete_rg r) =
    ((reachable-IsCurrent m' none r).0, refl)
reachable-IsCurrent m p (ends m' q out r e) =
    let (v, c) = reachable-IsCurrent m' (some q) r in
    let (out', e', w, l) = end_reconcile-Reconciles m' q v c in
    (subst (λ u. IsConsistent u.resource_map) (eq_of_some-eq (sym e' ∙ e)) w.consistent, tt)
reachable-IsCurrent m p (sets m' p' r s v) =
    let (w, c) = reachable-IsCurrent m' p' v in
    (set_status-IsConsistent m' r s w, set_status-IsCurrent m' p' r s c)

-- In every state that an interleaving of the steps reaches in which a call of Reconcile waits for the
-- lock, whatever statuses were set since it read the old set of its group, the map is consistent, and
-- the part under the lock does not panic: it replaces the resources of its group in the relation of the
-- map as it is then, drops just the cached statuses of resources that no group includes any more, and
-- returns just the kinds of the tracked resources.
pub reachable_lem :
    (m : ResourceMap) (q : Pending)
    → IsReachable m (some q)
    → IsConsistent m
      × ((out : Reconciled) × (end_reconcile m q ≡ some out)
          × IsReachable out.resource_map none
          × Reconciles q.group q.given q.delete_rg m out
          × ListsKinds out)
reachable_lem m q r =
    let (v, c) = reachable-IsCurrent m (some q) r in
    let (out, e, w, l) = end_reconcile-Reconciles m q v c in (v, (out, e, ends m q out r e, w, l))
