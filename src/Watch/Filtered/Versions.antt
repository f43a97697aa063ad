-- ===== src/Watch/Filtered/Versions.antt =====
-- The resource versions at which Run starts its watches.
use kpt_resource_group.Base.{
  ◌≡◌, refl, ◌∙◌, ap, Bool, true, false, Option, none, some, List, [], ◌∷◌, String, arith,
  if◌then◌else◌, ◌==◌, string_eq, Option-cases, inl, inr,
}
use kpt_resource_group.Api.{Time}
use kpt_resource_group.Status.{Objects}
use kpt_resource_group.Watch.Filtered.{
  Watcher, Payload, unstructured, other_payload, Event, added, modified, deleted, bookmark,
  error_event, unsupported, Handled, ErrorsApi, handle, handle_object, log_only,
}
use kpt_resource_group.Watch.Filtered.Run.{
  Position, Delivery, Session, run_events, after_error, after_event, pruned, run,
}

module _ (objects : Objects) (errors : ErrorsApi) where
  open objects use {Object, resource_version}
  open errors use {Err, is_expired}

  abbrev payload_version : Payload Object → String
  payload_version (unstructured o) = resource_version o
  payload_version other_payload = ""

  -- The version that an event has, and the error that it reports.
  abbrev pub event_version : Event Object Err → String
  event_version (added p) = payload_version p
  event_version (modified p) = payload_version p
  event_version (deleted p) = payload_version p
  event_version (bookmark none) = ""
  event_version (bookmark (some v)) = v
  event_version (error_event e) = ""
  event_version unsupported = ""

  abbrev pub event_error : Event Object Err → Option Err
  event_error (error_event e) = some e
  event_error e = none

  handle_object_version :
      (now : Time) (w : Watcher) (d : Bool) (p : Payload Object)
      → ((handle_object objects errors now w d p).new_version ≡ payload_version p)
        × ((handle_object objects errors now w d p).err ≡ none)
  unfolding handle_object
  handle_object_version now w d p = ground arith

  pub handle_version :
      (now : Time) (w : Watcher) (e : Event Object Err)
      → ((handle objects errors now w e).new_version ≡ event_version e)
        × ((handle objects errors now w e).err ≡ event_error e)
  unfolding handle log_only
  handle_version now w (added p) = handle_object_version now w false p
  handle_version now w (modified p) = handle_object_version now w false p
  handle_version now w (deleted p) = handle_object_version now w true p
  handle_version now w (bookmark none) = (refl, refl)
  handle_version now w (bookmark (some v)) = (refl, refl)
  handle_version now w (error_event e) = (refl, refl)
  handle_version now w unsupported = (refl, refl)

  -- Where a watch resumes: after the last event before an error that has a version, and from
  -- nowhere if the error says that the version has expired.
  abbrev pub resumes : Delivery objects errors → String → String
  resumes [] v = v
  resumes ((now, e) ∷ rest) v = elim (event_error e) [
    | some err ↦ if is_expired err then "" else v
    | none ↦ resumes rest (if event_version e == "" then v else event_version e)
  ]

  -- where run_events goes on, from the error that handle returned
  abbrev pub next : Time → Delivery objects errors → Position → Handled Err → Option Err → Position
  next now rest p h o = elim o [
    | some err ↦ after_error objects errors now p h.watcher err
    | none ↦ run_events objects errors rest (after_event objects errors p h)
  ]

  run_events_version :
      (ds : Delivery objects errors) (p : Position)
      → (run_events objects errors ds p).resource_version ≡ resumes ds p.resource_version
  unfolding run_events after_error after_event
  run_events_version [] p = refl
  run_events_version ((now, e) ∷ rest) p =
      let h = handle objects errors now (pruned objects errors now p.watcher) e in
      let (version, err) = handle_version now (pruned objects errors now p.watcher) e in
      ap (λ o. (next now rest p h o).resource_version) err
      ∙ (elim (event_error e)
          as (λ o. (next now rest p h o).resource_version ≡ (elim o [
            | some x ↦ if is_expired x then "" else p.resource_version
            | none ↦
                resumes rest (if event_version e == "" then p.resource_version else event_version e)
          ])) [
            | some x ↦ refl
            | none ↦
                run_events_version rest (after_event objects errors p h)
                ∙ ap (λ v. resumes rest (if v == "" then p.resource_version else v)) version
          ])

  -- The versions of the watches up to the first that does not start, or that Stop ends.
  abbrev pub requested_versions : List (Session objects errors) → String → Bool → List String
  requested_versions ss v true = []
  requested_versions [] v false = []
  requested_versions (s ∷ ss) v false = elim s.delivery [
    | none ↦ v ∷ []
    | some ds ↦ v ∷ requested_versions ss (resumes ds v) s.stops
  ]

  -- Run asks for each watch at the version where the one before it ended, whatever objects are
  -- tracked, and asks for none after Stop was called or a watch did not start.
  pub run_versions :
      (ss : List (Session objects errors)) (p : Position) (stopped : Bool)
      → (run objects errors ss p stopped).requests
        ≡ requested_versions ss p.resource_version stopped
  unfolding run
  run_versions [] p true = refl
  run_versions (s ∷ ss) p true = refl
  run_versions [] p false = refl
  run_versions (s ∷ ss) p false = elim (Option-cases s.delivery) [
    | inl e ↦ rw (e, run, requested_versions)
    | inr (ds, e) ↦
        rw (e, run, requested_versions)
          (ap (λ vs. p.resource_version ∷ vs)
            (run_versions ss (run_events objects errors ds p) s.stops
              ∙ ap (λ v. requested_versions ss v s.stops) (run_events_version ds p)))
  ]
