-- ===== src/Metrics/Viewed.antt =====
-- Measurements and views fit together.
use kpt_resource_group.Base.{
  ℕ, ◌≡◌, refl, Bool, true, false, ◌&&◌, Option, none, some, List, [], ◌∷◌, map, String, contains,
  ◌==◌, string_eq, if◌then◌else◌, length, nat_eq,
}
use kpt_resource_group.Api.{NamespacedName, Time}
use kpt_resource_group.Controller.Metrics.{
  Metric, pipeline_error, reconcile_duration, resource_group_total, ready_resource_count,
  resource_count, namespace_count, cluster_scoped_resource_count, crd_count, kcc_resource_count,
}
use kpt_resource_group.Metrics.Views.{View, registered_views}
use kpt_resource_group.Metrics.Record.{
  Measurement, measurement_of, record_reconcile_duration, record_resource_group_total,
  record_ready_resource_count, record_kcc_resource_count, record_resource_count,
  record_namespace_count, record_cluster_scoped_resource_count, record_crd_count,
  record_pipeline_error,
}

-- the view of a measure
abbrev pub view_of : List View → String → Option View
view_of [] name = none
view_of (v ∷ vs) name = if v.measure.name == name then some v else view_of vs name

-- every item of the first list is in the second
abbrev pub all_in : List String → List String → Bool
all_in [] ys = true
all_in (x ∷ xs) ys = contains ys x && all_in xs ys

-- whether a view aggregates a measurement by just the keys of its tags
abbrev pub fits : Measurement → Option View → Bool
fits m none = false
fits m (some v) =
    let tags = map (λ t. t.0) m.tags in
    all_in v.tag_keys tags && all_in tags v.tag_keys && length v.tag_keys == length tags

-- Every measurement that the controllers make is of a measure that a registered view aggregates, and has
-- just the tags that this view aggregates by.
pub measurement_viewed :
    (decimal : ℕ → String) (text_of : NamespacedName → String) (start now : Time) (c : Metric)
    → let m = measurement_of decimal text_of start now c in
      fits m (view_of registered_views m.measure.name) ≡ true
unfolding measurement_of record_reconcile_duration record_resource_group_total
    record_ready_resource_count record_kcc_resource_count record_resource_count
    record_namespace_count record_cluster_scoped_resource_count record_crd_count
    record_pipeline_error contains
measurement_viewed decimal text_of start now (pipeline_error nn component has_err) = refl
measurement_viewed decimal text_of start now (reconcile_duration reason) = refl
measurement_viewed decimal text_of start now (resource_group_total n) = refl
measurement_viewed decimal text_of start now (ready_resource_count nn n) = refl
measurement_viewed decimal text_of start now (resource_count nn n) = refl
measurement_viewed decimal text_of start now (namespace_count nn n) = refl
measurement_viewed decimal text_of start now (cluster_scoped_resource_count nn n) = refl
measurement_viewed decimal text_of start now (crd_count nn n) = refl
measurement_viewed decimal text_of start now (kcc_resource_count nn n) = refl
