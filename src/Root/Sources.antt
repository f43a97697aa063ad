-- ===== src/Root/Sources.antt =====
-- The sources of events that NewController of root_controller.go hands to the controller builder: the
-- ResourceGroups, and the CustomResourceDefinitions with their handler. WithEventFilter adds a filter to
-- all of them, and an event is handled if it passes every filter: that is what the builder's documentation
-- says, and `admits` stands for it.
use kpt_resource_group.Base.{
  ◌≡◌, ◌∙◌, Bool, true, false, ◌&&◌, Option, none, List, [], ◌∷◌, if◌then◌else◌, arith,
}
use kpt_resource_group.Api.{NamespacedName, GroupKind, ResourceGroup}
use kpt_resource_group.ResourceMap.{ResourceMap}
use kpt_resource_group.Handler.Events.{
  Notice, is_created, is_deleted, is_sent, is_updated, subject, on_crd_notice, enqueue_crd_event,
}
use kpt_resource_group.Root.Predicate.{predicate_update, predicate_generic}

-- An event with its objects as ResourceGroups; an object of another type is none.
abbrev pub GroupNotice : Type 0
GroupNotice = Notice (Option ResourceGroup)

-- ResourceGroupPredicate and NoGenericEventPredicate, which let through what they do not define.
unfoldable pub group_filter : GroupNotice → Bool
group_filter (is_updated old new) = predicate_update old new
group_filter other = true

unfoldable pub generic_filter : GroupNotice → Bool
generic_filter (is_sent o) = predicate_generic o
generic_filter other = true

-- The filters of NewController.
abbrev pub filters : List (GroupNotice → Bool)
filters = group_filter ∷ generic_filter ∷ []

abbrev pub passes_all : List (GroupNotice → Bool) → GroupNotice → Bool
passes_all [] n = true
passes_all (f ∷ fs) n = f n && passes_all fs n

-- An event on objects that are no ResourceGroups.
abbrev pub foreign : {Object : Type 0} → Notice Object → GroupNotice
foreign (is_created o) = is_created none
foreign (is_deleted o) = is_deleted none
foreign (is_sent o) = is_sent none
foreign (is_updated o o') = is_updated none none

module _ (admits : List (GroupNotice → Bool) → GroupNotice → Bool) where
  -- what an event on a CustomResourceDefinition does
  unfoldable pub definition_source :
      ResourceMap → Notice (Option GroupKind) → ResourceMap × List NamespacedName
  definition_source m n = if admits filters (foreign n) then on_crd_notice m n else (m, [])

  -- whether an event on a ResourceGroup makes a request
  unfoldable pub group_source : GroupNotice → Bool
  group_source n = admits filters n

  handled :
      ((fs : List (GroupNotice → Bool)) (n : GroupNotice) → admits fs n ≡ passes_all fs n)
      → (m : ResourceMap) (n : Notice (Option GroupKind))
      → definition_source m n ≡ (elim n [
        | is_created crd ↦ enqueue_crd_event m crd
        | is_deleted crd ↦ enqueue_crd_event m crd
        | is_sent crd ↦ (m, [])
        | is_updated old new ↦ (m, [])
      ])
  unfolding definition_source group_filter generic_filter predicate_generic predicate_update
      on_crd_notice subject
  handled all m (is_created crd) = rw (all filters (is_created none), definition_source)
  handled all m (is_deleted crd) = rw (all filters (is_deleted none), definition_source)
  handled all m (is_sent crd) = rw (all filters (is_sent none), definition_source)
  handled all m (is_updated old new) = rw (all filters (is_updated none none), definition_source)

  requested :
      ((fs : List (GroupNotice → Bool)) (n : GroupNotice) → admits fs n ≡ passes_all fs n)
      → (g : GroupNotice)
      → group_source g ≡ (elim g [
        | is_created o ↦ true
        | is_deleted o ↦ true
        | is_sent o ↦ false
        | is_updated old new ↦ predicate_update old new
      ])
  unfolding group_source group_filter generic_filter predicate_generic
  requested all (is_created o) = all filters (is_created o)
  requested all (is_deleted o) = all filters (is_deleted o)
  requested all (is_sent o) = all filters (is_sent o)
  requested all (is_updated old new) = all filters (is_updated old new) ∙ ground arith

  -- Where an event is handled just if it passes every filter of the builder, a CustomResourceDefinition
  -- that is created or deleted is handled, but one that is updated is not: the
  -- filter that is meant for ResourceGroups drops the event, so no cached status is cleared and no group
  -- gets an event. Of the events on ResourceGroups only generic ones are dropped and updates are filtered
  -- further.
  pub sources_lem :
      ((fs : List (GroupNotice → Bool)) (n : GroupNotice) → admits fs n ≡ passes_all fs n)
      → (m : ResourceMap) (n : Notice (Option GroupKind)) (g : GroupNotice)
      → (definition_source m n ≡ (elim n [
        | is_created crd ↦ enqueue_crd_event m crd
        | is_deleted crd ↦ enqueue_crd_event m crd
        | is_sent crd ↦ (m, [])
        | is_updated old new ↦ (m, [])
      ]))
        × (group_source g ≡ (elim g [
          | is_created o ↦ true
          | is_deleted o ↦ true
          | is_sent o ↦ false
          | is_updated old new ↦ predicate_update old new
        ]))
  sources_lem all m n g = (handled all m n, requested all g)
