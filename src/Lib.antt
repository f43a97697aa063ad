-- ===== src/Lib.antt =====
-- The controllers of kpt-resource-group keep, for each ResourceGroup of a cluster, the status of the
-- resources that it lists. The root controller (controllers/root) reads a ResourceGroup, records its
-- resources in the resource map (controllers/resourcemap), resolves their kinds to versions
-- (controllers/typeresolver), has the watch manager (controllers/watch) watch these, and sends an event.
-- The throttler (controllers/handler) turns events into requests, at most one waiting for each group.
-- The ResourceGroup controller (controllers/resourcegroup) answers a request: it computes the status of
-- each resource, from the cache in the resource map or from the API server (controllers/status), and
-- writes the status of the group. A change of a CustomResourceDefinition clears cached statuses.
--
-- Files and code:
-- - Base, GoMap, Text: what the source takes from Go, as equality, maps with their `range`, slices and
--   strings; lemmas on these.
-- - KeySet: resourceSet and resourceGroupSet of controllers/resourcemap/resourcemap.go.
-- - Api: the types of apis/kpt.dev/v1alpha1/resourcegroup_types.go.
-- - ResourceMap: controllers/resourcemap/resourcemap.go. `reconcile` is Reconcile with its two loops
--   (`unlink_all`, `link_all`) and its end (`finish`); a nil dereference is `none`. Links has the
--   invariant, Link, Unlink, Diff and Groups the effect of Reconcile, History any sequence of calls,
--   View what does not depend on the order of Go's maps. Reconcile reads the old set of its group before it
--   takes the lock; `update_locked` is its part under the lock, and System has the two as two steps.
-- - Status: ComputeStatus and its helpers in controllers/status/status.go.
-- - TypeResolver: Refresh, Resolve and Reconcile of controllers/typeresolver/typeresolver.go, and the
--   mapping of fakeresolver.go (Fake).
-- - Watch.Manager: controllers/watch/manager.go; Account has any history of UpdateWatches and of
--   watchers that return.
-- - Watch.Filtered: controllers/watch/filteredwatcher.go. Run has the two loops of Run, Versions and
--   Waits what they ask for and how long they sleep, Lifecycle the guarded fields under start and Stop.
-- - Watch.Fleet: the manager and the watchers that it creates together, each with its goroutine and its
--   watches.
-- - Watch.Creation: createWatcher of controllers/watch/watcher.go.
-- - Handler: controllers/handler, the two event handlers (Events) and the throttler (Throttler), whose
--   goroutines take their steps in any order; Throttler.Drain has their end, Throttler.Delivery what
--   becomes of an event.
-- - Root: controllers/root/root_controller.go, the event filters (Predicate) and Reconcile with all
--   its branches (Reconcile), one request in Reconcile.Serves and any history of them in
--   Reconcile.Total; the sources of events that NewController sets up (Sources); getGroupKinds of
--   controllers/root/util.go (GroupKinds).
-- - Metrics: controllers/metrics. Measures is metrics.go; Views is tagkeys.go, views.go and the
--   registration of register.go; Record is record.go. The measurements that a reconciliation makes are
--   values of Controller.Metrics.
-- - Runner: controllers/runner/run.go and main.go, with the functions New...Controller and
--   NewTypeResolver: the calls of libraries that can fail, in order, and what the controllers start with.
-- - Controller: controllers/resourcegroup. Conditions is condition.go; Resources, Compute, Metrics,
--   Timeout, Update, Finish and Reconcile are resourcegroup_controller.go, in the order in which one
--   function uses the other; Finish.Races has the race of the timeout with the goroutine that computes the
--   statuses, assignment by assignment; Resources.Shared has setResStatus over the memory of DeepCopy.
-- - DeepCopy: apis/kpt.dev/v1alpha1/zz_generated.deepcopy.go, over a memory of arrays that slices can
--   share (Heap): a slice is a window of an array, and a pointer to a new struct is the struct. Functions has the generated functions, Laws, Slices and Structs what a deep copy
--   promises and how the promise passes from elements to slices and structs.
-- - System: the resource map under the calls of all these parts, in any order, in steps as fine as its lock:
--   Reconcile in two steps, and SetStatus. One event from a watch is
--   followed to the cache and the statuses (Flow), through the throttler to the work queue (Queue), and
--   through the reconciliation of a group to the API server (Server).
--
-- Conventions. State is passed explicitly and an error is a value. An operation under a lock is one step.
-- Outside System the functions that take the lock more than once, as handle, enqueueEvent and computeStatus,
-- are modelled as they run when no other call comes between, and the API server answers a computation of
-- statuses as one read of its state would. The root controller reconciles one request at a time, which is its
-- library's default.
-- Go leaves the order of `range` over a map open; the model takes the order of insertion, and the
-- theorems speak of membership. The clock is an argument. Log lines and texts of errors are left out.
-- Libraries are parameters: DeepCopyInto of the metadata of objects and lists, with the promise of a
-- deep copy; kstatus, unstructured objects and YAML are the record `Objects`, the API server,
-- semantic equality and the retry helper are the record `Cluster`, whose only assumptions are that
-- equality is reflexive and that the helper tries again after a conflict, a bounded number of times.
-- That an event is handled if it passes all filters of the controller builder is a hypothesis where
-- it is used. Numbers are natural; the timeout of a reconciliation is cut to 64 bits as Go cuts it.
-- Loops are recursion on the list that they run over, so no fuel is needed but the number of
-- retries, which is a field of `Cluster`.
--
-- Not modelled: flags, scheme and logging (controllers/log, the start of controllers/runner/run.go), the
-- profiler and the metric sample, which only call libraries; OpenCensus itself; the random timeout that a
-- watch hands to the API server; the registration of the types with the scheme; the end-to-end tests.
pub mod Base
pub mod GoMap
pub mod KeySet
pub mod Api
pub mod ResourceMap
pub mod Text
pub mod Status
pub mod TypeResolver
pub mod Watch
pub mod Controller
pub mod DeepCopy
pub mod Handler
pub mod Root
pub mod Metrics
pub mod Runner
pub mod System
