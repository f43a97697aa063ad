-- ===== src/Watch/Filtered.antt =====
-- controllers/watch/filteredwatcher.go: one watch of a type. What the watch delivers, the errors of
-- the API and whether Stop is called meanwhile are arguments. `none` of a started watch is the error
-- of startWatch. Waiting is left out, but not its length. handle is one step here, though each of its
-- calls of the resource map takes the lock for itself; System has these as single steps.
pub mod Errors
pub mod Events
pub mod Run
pub mod Lifecycle
pub mod Versions
pub mod Waits
pub mod Tests
use kpt_resource_group.Base.{
  ℕ, suc, ◌-◌, ◌^◌, Bool, true, false, not, ◌&&◌, ◌||◌, Option, none, some, List, [], ◌∷◌, ◌++◌,
  String, if◌then◌else◌, leb, ltb, ◌==◌, string_eq,
}
use Prim.Native.String.{◌++◌ as append}
use kpt_resource_group.GoMap.{Map, get, put, delete, keys}
use kpt_resource_group.Api.{NamespacedName, ObjMetadata, Time, not_found}
use kpt_resource_group.ResourceMap.{ResourceMap, CachedStatus, has_resource, groups_of, set_status}
use kpt_resource_group.Status.{Objects, compute_status, no_cached_status}

-- errorLoggingInterval, in nanoseconds
abbrev pub error_logging_interval : ℕ
error_logging_interval = 1000000000

abbrev pub max_watch_retry_factor : ℕ
max_watch_retry_factor = 18

abbrev pub watch_event_bookmark_type : String
watch_event_bookmark_type = "Bookmark"

abbrev pub watch_event_error_type : String
watch_event_error_type = "Error"

abbrev pub watch_event_unsupported_type : String
watch_event_unsupported_type = "Unsupported"

abbrev pub ErrorTracker : Type 0
ErrorTracker = Map String Time

-- time.Since(last) >= errorLoggingInterval
abbrev pub is_old : Time → Time → Bool
is_old now last = leb error_logging_interval (now - last)

-- the entry of an error, if it is old
abbrev pub has_old : Time → Option Time → Bool
has_old now none = false
has_old now (some last) = is_old now last

-- The loop of pruneErrors.
unfoldable pub prune_loop : Time → ErrorTracker → List String → ErrorTracker
prune_loop now t [] = t
prune_loop now t (id ∷ ids) = prune_loop now (if has_old now (get t id) then delete t id else t) ids

-- func (w *filteredWatcher) pruneErrors
unfoldable pub prune_errors : Time → ErrorTracker → ErrorTracker
prune_errors now t = prune_loop now t (keys t)

-- func (w *filteredWatcher) addError
unfoldable pub add_error : Time → ErrorTracker → String → Bool × ErrorTracker
add_error now t id = elim (get t id) [
  | none ↦ (true, put t id now)
  | some last ↦ if is_old now last then (true, put t id now) else (false, t)
]

-- func waitUntilNextRetry: the milliseconds that it sleeps
unfoldable pub wait_until_next_retry : ℕ → ℕ
wait_until_next_retry retries =
    2 ^ (if ltb max_watch_retry_factor retries then max_watch_retry_factor else retries)

-- The object of an event, which may be of another type than `unstructured.Unstructured`.
pub data Payload (Object : Type 0) : Type 0 where
  unstructured : Object → Payload Object
  other_payload : Payload Object

-- watch.Event by its type; a bookmark has the version that can be read off it.
pub data Event (Object Err : Type 0) : Type 0 where
  added modified deleted : Payload Object → Event Object Err
  bookmark : Option String → Event Object Err
  error_event : Err → Event Object Err
  unsupported : Event Object Err

-- The fields that handle uses; the base watch and `stopped` are the sessions of Run.
pub record Watcher : Type 0 where
  pub error_tracker : ErrorTracker
  pub resource_map : ResourceMap

-- What handle leaves and returns, with the groups that get an event.
pub record Handled (Err : Type 0) : Type 0 where
  pub watcher : Watcher
  pub new_version : String
  pub ignored : Bool
  pub err : Option Err
  pub events : List NamespacedName

-- The fields of metav1.Status that errorID reads, with the name in the details.
pub record ErrStatus : Type 0 where
  pub status : String
  pub reason : String
  pub code : ℕ
  pub details_name : Option String

-- The errors of the API: whether one says that a resource version has expired, the name of its type, the
-- status of an apierrors.StatusError that is not nil, and the text of a number.
pub record ErrorsApi : Type 1 where
  pub Err : Type 0
  pub is_expired : Err → Bool
  pub type_name : Err → String
  pub status_of : Err → Option ErrStatus
  pub decimal : ℕ → String

module _ (errors : ErrorsApi) where
  -- the name in the details, or else status, reason and code
  unfoldable pub status_id : ErrStatus → String
  status_id s =
      let name : String = elim s.details_name [ none ↦ "" | some n ↦ n ] in
      if name == ""
      then append s.status (append "-" (append s.reason (append "-" (errors.decimal s.code))))
      else name

  -- func errorID
  unfoldable pub error_id : errors.Err → String
  error_id e =
      append (errors.type_name e) (elim (errors.status_of e) [ none ↦ "" | some s ↦ status_id s ])

module _ (objects : Objects) where
  open objects use {Object, group_version_kind, namespace, name, resource_version}

  -- func getID
  unfoldable pub get_id : Object → ObjMetadata
  get_id o = record {
    namespace = namespace o;
    name = name o;
    group_kind = record {
      group = (group_version_kind o).group;
      kind = (group_version_kind o).kind;
    };
  }

  -- func (w *filteredWatcher) shouldProcess
  unfoldable pub should_process : ResourceMap → Object → Bool
  should_process m o = has_resource m (get_id o)

  -- the status that handle stores for the object
  unfoldable pub seen_status : Time → Bool → Object → CachedStatus
  seen_status now is_deleted o =
      if is_deleted
      then record no_cached_status { status = not_found }
      else compute_status objects now o

  module _ (errors : ErrorsApi) where
    open errors use {Err}

    -- the part of handle after the switch
    unfoldable pub handle_object : Time → Watcher → Bool → Payload Object → Handled Err
    handle_object now w is_deleted other_payload = record {
      watcher = w;
      new_version = "";
      ignored = false;
      err = none;
      events = [];
    }
    handle_object now w is_deleted (unstructured o) =
        if not (should_process w.resource_map o)
        then record {
          watcher = w;
          new_version = resource_version o;
          ignored = true;
          err = none;
          events = [];
        }
        else let m = set_status w.resource_map (get_id o) (some (seen_status now is_deleted o)) in
          record {
            watcher = record w { resource_map = m };
            new_version = resource_version o;
            ignored = false;
            err = none;
            events = groups_of m (get_id o);
          }

    -- the end of handle for an event that only counts as an error to log
    unfoldable pub log_only : Time → Watcher → String → Handled Err
    log_only now w id = record {
      watcher = record w { error_tracker = (add_error now w.error_tracker id).1 };
      new_version = "";
      ignored = false;
      err = none;
      events = [];
    }

    -- func (w *filteredWatcher) handle
    unfoldable pub handle : Time → Watcher → Event Object Err → Handled Err
    handle now w (added p) = handle_object now w false p
    handle now w (modified p) = handle_object now w false p
    handle now w (deleted p) = handle_object now w true p
    handle now w (bookmark none) = log_only now w watch_event_bookmark_type
    handle now w (bookmark (some v)) = record {
      watcher = w;
      new_version = v;
      ignored = false;
      err = none;
      events = [];
    }
    handle now w (error_event e) = record {
      watcher = w;
      new_version = "";
      ignored = false;
      err = some e;
      events = [];
    }
    handle now w unsupported = log_only now w watch_event_unsupported_type
