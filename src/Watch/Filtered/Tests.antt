-- ===== src/Watch/Filtered/Tests.antt =====
-- A watch of pods on small inputs, and the theorems at those inputs.
use kpt_resource_group.Base.{
  length, ◌≤◌, ◌≡◌, Bool, true, false, List, [], ◌∷◌, none, some, String, string_eq,
}
use kpt_resource_group.Watch.Filtered.Lifecycle.{
  Action, starts, leaves, acts, act, stop, new_filtered, returned,
}
use kpt_resource_group.Watch.Filtered.Lifecycle.Open.{watches_open}
use kpt_resource_group.Api.{meta_eq, named_eq}
use kpt_resource_group.ResourceMap.Tests.{shared}
use kpt_resource_group.Status.{Objects}
use kpt_resource_group.Watch.Filtered.{
  Watcher, unstructured, added, bookmark, error_event, unsupported, ErrorsApi,
}
use kpt_resource_group.Watch.Filtered.Waits.{run_waits_bounded, AllBetween}
use kpt_resource_group.Watch.Filtered.Run.{begin_run, Position, Session, run}
use kpt_resource_group.Watch.Filtered.Versions.{run_versions}

-- An object is its name and its resource version; every one is a deployment.
abbrev pub objects : Objects
objects = record {
  Object = String × String;
  Raw = Unit {0};
  group_version_kind = λ o. record { group = "apps"; version = "v1"; kind = "Deployment" };
  namespace = λ o. "ns";
  name = λ o. o.0;
  resource_version = λ o. o.1;
  annotations = λ o. [];
  compute = λ o. some (some (record { status = "Current"; conditions = [] }));
  nested_conditions = λ o. some none;
  marshal = λ raws. none;
  unmarshal = λ t. none;
}

-- An error is whether a version has expired.
abbrev pub errors : ErrorsApi
errors = record {
  Err = Bool;
  is_expired = λ e. e;
  type_name = λ e. "*errors.StatusError";
  status_of = λ e.
      some (record { status = "Failure"; reason = "Expired"; code = 410; details_name = none });
  decimal = λ n. "410";
}

abbrev pub watcher : Watcher
watcher = record { error_tracker = []; resource_map = shared }

-- The second watch starts after the bookmark, the third from nowhere since the version has expired,
-- and then Stop is called.
abbrev sessions : List (Session objects errors)
sessions =
    record {
      delivery = some ((1, added (unstructured ("web", "12"))) ∷ (2, bookmark (some "15")) ∷ []);
      stops = false;
    }
    ∷ record { delivery = some ((3, error_event true) ∷ []); stops = false }
    ∷ record { delivery = some []; stops = true }
    ∷ record { delivery = some []; stops = false }
    ∷ []

abbrev position : Position
position = begin_run watcher

run_versions_example : (run objects errors sessions position false).requests ≡ "" ∷ "15" ∷ "" ∷ []
run_versions_example = run_versions objects errors sessions position false

-- Run starts, its watch ends and Run starts again before Stop; then the loop ends and Run starts again.
abbrev before_stop : List Action
before_stop = starts true ∷ leaves ∷ starts true ∷ []

abbrev after_stop : List Action
after_stop = leaves ∷ starts true ∷ []

watches_open_example :
    (length (acts new_filtered before_stop).open_watches ≤ 1)
    × ((acts (stop (acts new_filtered before_stop)) after_stop).open_watches ≡ [])
    × ((acts (stop (acts new_filtered before_stop)) after_stop).opened
        ≡ (acts new_filtered before_stop).opened)
    × ((act
          (act (acts (stop (acts new_filtered before_stop)) after_stop) leaves)
          (starts true)).phase
        ≡ returned)
watches_open_example = watches_open before_stop after_stop true

-- Two errors in a row over two watches, an event, and an error.
abbrev failing_sessions : List (Session objects errors)
failing_sessions =
    record { delivery = some ((1, error_event true) ∷ (2, unsupported) ∷ []); stops = false }
    ∷ record { delivery = some ((3, error_event false) ∷ []); stops = false }
    ∷ record { delivery = some ((4, unsupported) ∷ (5, error_event false) ∷ []); stops = false }
    ∷ []

run_waits_bounded_example :
    ((run objects errors failing_sessions (begin_run watcher) false).position.waits
      ≡ 2 ∷ 4 ∷ 2 ∷ [])
    × AllBetween 2 262144
        (run objects errors failing_sessions (begin_run watcher) false).position.waits
run_waits_bounded_example = run_waits_bounded objects errors failing_sessions watcher false
